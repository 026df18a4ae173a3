-- ===== src/Serial/Samples.antt =====
-- A serial port whose registers hold what is written to their fields, with a transmit queue that is
-- sent while the port is enabled, for the tests.
use native.Mathlib.Nat.{mod-eq_of_lt}
use sparreal_os.Prelude.{
  List, [], ◌∷◌, ℕ, ◌+◌, ◌*◌, ◌/◌, ◌%◌, ◌^◌, ◌≤◌, ◌<◌, ◌≡◌, ◌≢◌, refl, Bool, true, false, ltb→lt,
  ◌-◌, ◌==◌, ◌||◌, ◌&&◌, not, Bool-cases, inl, inr, if◌then◌else◌, arith,
}
use sparreal_os.Prelude.Fields.{field, is_set}
use sparreal_os.Serial.Registers.{
  Register, dr, fr, ibrd, fbrd, lcr_h, cr, Device, DeviceLaws, Holds, ibrd_holds, fbrd_holds,
  lcr_h_holds, cr_holds, implemented,
}

pub record Port : Type 0 where
  pub integer : ℕ
  pub fraction : ℕ
  pub line : ℕ
  pub control : ℕ
  pub busy : Bool
  pub queued : ℕ

value : Register → Port → ℕ
value ibrd s = s.integer % 2 ^ 16
value fbrd s = s.fraction % 2 ^ 6
value lcr_h s = s.line % 2 ^ 8
value cr s = s.control % 2 ^ 16 / 2 ^ 7 * 2 ^ 7 + s.control % 2 ^ 3
value _ s = 0

pub read : Register → Port → ℕ
read fr s = if s.busy || not (s.queued == 0) then 2 ^ 3 else 0
read r s = value r s

pub after_read : Register → Port → Port
after_read fr s =
    let sending = s.control % 2 == 1 in
    record s {
      busy = sending && not (s.queued == 0);
      queued = if sending then s.queued - 1 else s.queued;
    }
after_read _ s = s

pub write : Register → ℕ → Port → Port
write dr v s = record s { queued = s.queued + 1 }
write ibrd v s = record s { integer = v }
write fbrd v s = record s { fraction = v }
write lcr_h v s = record s { line = v }
write cr v s = record s { control = v }
write _ v s = s

abbrev pub plain : Device
plain = record { State = Port; read = read; after_read = after_read; write = write }

sent : Port → Bool
sent s = s.queued == 0

quiet : Bool → ℕ
quiet true = 1
quiet false = 0

read_held : (r : Register) (s : Port) → Holds r → read r s ≡ value r s
unfolding read
read_held r s ibrd_holds = refl
read_held r s fbrd_holds = refl
read_held r s lcr_h_holds = refl
read_held r s cr_holds = refl

value_implemented : (r : Register) (s : Port) → Holds r → implemented r (value r s) ≡ true
unfolding value implemented
value_implemented r s ibrd_holds = ground arith
value_implemented r s fbrd_holds = ground arith
value_implemented r s lcr_h_holds = ground arith
value_implemented r s cr_holds = ground arith

after_read_held : (r r' : Register) (s : Port) → Holds r → value r (after_read r' s) ≡ value r s
unfolding value after_read
after_read_held r fr s ibrd_holds = refl
after_read_held r fr s fbrd_holds = refl
after_read_held r fr s lcr_h_holds = refl
after_read_held r fr s cr_holds = refl
after_read_held r _ s h = refl

write_self :
    (r : Register) (v : ℕ) (s : Port) → Holds r → implemented r v ≡ true → value r (write r v s) ≡ v
unfolding value write implemented
write_self r v s ibrd_holds h = mod-eq_of_lt (ltb→lt v _ h)
write_self r v s fbrd_holds h = mod-eq_of_lt (ltb→lt v _ h)
write_self r v s lcr_h_holds h = mod-eq_of_lt (ltb→lt v _ h)
write_self r v s cr_holds h = ground arith

write_other :
    (r r' : Register) (v : ℕ) (s : Port) → Holds r → r' ≢ r → value r (write r' v s) ≡ value r s
unfolding value write
write_other r dr v s ibrd_holds ne = refl
write_other r dr v s fbrd_holds ne = refl
write_other r dr v s lcr_h_holds ne = refl
write_other r dr v s cr_holds ne = refl
write_other r ibrd v s ibrd_holds ne = absurd (ne refl)
write_other r ibrd v s fbrd_holds ne = refl
write_other r ibrd v s lcr_h_holds ne = refl
write_other r ibrd v s cr_holds ne = refl
write_other r fbrd v s ibrd_holds ne = refl
write_other r fbrd v s fbrd_holds ne = absurd (ne refl)
write_other r fbrd v s lcr_h_holds ne = refl
write_other r fbrd v s cr_holds ne = refl
write_other r lcr_h v s ibrd_holds ne = refl
write_other r lcr_h v s fbrd_holds ne = refl
write_other r lcr_h v s lcr_h_holds ne = absurd (ne refl)
write_other r lcr_h v s cr_holds ne = refl
write_other r cr v s ibrd_holds ne = refl
write_other r cr v s fbrd_holds ne = refl
write_other r cr v s lcr_h_holds ne = refl
write_other r cr v s cr_holds ne = absurd (ne refl)
write_other r _ v s h ne = refl

quiet_lt : (b : Bool) → quiet b < 2
unfolding quiet
quiet_lt true = omega arith
quiet_lt false = omega arith

sent_read : (r : Register) (s : Port) → sent s ≡ true → sent (after_read r s) ≡ true
unfolding sent after_read
sent_read fr s h = elim (Bool-cases (s.control % 2 == 1)) [
  | inl on ↦ rw on (ground arith)
  | inr off ↦ rw off h
]
sent_read _ s h = h

sent_write : (r : Register) (v : ℕ) (s : Port) → r ≢ dr → sent s ≡ true → sent (write r v s) ≡ true
unfolding sent write
sent_write dr v s ne h = absurd (ne refl)
sent_write ibrd v s ne h = h
sent_write fbrd v s ne h = h
sent_write lcr_h v s ne h = h
sent_write cr v s ne h = h
sent_write _ v s ne h = h

busy_falls : (b : Bool) → is_set (if b then 2 ^ 3 else 0) 3 ≡ true → quiet false < quiet b
unfolding quiet is_set
busy_falls true h = omega arith
busy_falls false h = absurd (ground arith)

busy_ends :
    (s : Port)
    → sent s ≡ true
    → field (value cr s) 0 1 ≡ 0
    → is_set (read fr s) 3 ≡ true
    → quiet (after_read fr s).busy < quiet s.busy
unfolding sent value field read after_read
busy_ends s q off busy =
    let disabled : (s.control % 2 == 1) ≡ false = ground arith in
    rw disabled (busy_falls s.busy (ground arith))

pub plain-DeviceLaws : DeviceLaws plain
unfolding read after_read
plain-DeviceLaws = record {
  value = value;
  sent = sent;
  quiet = λ s. quiet s.busy;
  drain = 2;
  read_held = read_held;
  value_implemented = value_implemented;
  after_read_held = after_read_held;
  write_self = write_self;
  write_other = write_other;
  sent_read = sent_read;
  sent_write = sent_write;
  quiet_lt = λ s q. quiet_lt s.busy;
  busy_ends = busy_ends;
}

-- A port that is enabled, with its queues on, in the middle of a character.
abbrev pub in_use : Port
in_use = record {
  integer = 13;
  fraction = 1;
  line = 0x70;
  control = 0x301;
  busy = true;
  queued = 0;
}

pub all_sent : plain-DeviceLaws.sent in_use ≡ true
unfolding plain-DeviceLaws sent
all_sent = refl

pub two_rounds : plain-DeviceLaws.drain ≤ 2
unfolding plain-DeviceLaws
two_rounds = omega arith

-- A port with the words of its receive queue.
abbrev front : List ℕ → ℕ
front [] = 0
front (w ∷ ws) = w

abbrev behind : List ℕ → List ℕ
behind [] = []
behind (w ∷ ws) = ws

unfoldable pub read_queue : Register → List ℕ → ℕ
read_queue fr [] = 2 ^ 4
read_queue dr ws = front ws
read_queue _ ws = 0

unfoldable pub after_queue : Register → List ℕ → List ℕ
after_queue dr ws = behind ws
after_queue _ ws = ws

abbrev pub queue : Device
queue = record { State = List ℕ; read = read_queue; after_read = after_queue; write = λ r v ws. ws }

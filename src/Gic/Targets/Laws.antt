-- ===== src/Gic/Targets/Laws.antt =====
-- The processors of a list are those that it was made of, and an acknowledgement is a round trip.
use sparreal_os.Prelude.{
  ℕ, zero, suc, ◌+◌, ◌/◌, ◌%◌, ◌^◌, ◌≤◌, ◌<◌, ◌≡◌, refl, ◌∙◌, Bool, true, false, ◌&&◌, ◌||◌, ltb,
  leb, lt→ltb, ltb-false→le, ltb→lt, ◌==◌, if◌then◌else◌, List, [], ◌∷◌, bit_or, arith, inl, inr,
  Bool-cases,
}
use sparreal_os.Prelude.BitAt.{bit_at, bit_at-bit_or, bit_at-pow, bit_at-zero, bit_and-pow}
use sparreal_os.Prelude.Fields.{field}
use sparreal_os.Prelude.Outcome.{ok}
use sparreal_os.Gic.Ids.{is_sgi}
use sparreal_os.Gic.Targets.{
  TargetList, add_target, add_targets, new_target_list, listed, cpu_id_list, Ack, sgi, other,
  to_ack, from_ack, eoi_value,
}

pub contains : List ℕ → ℕ → Bool
contains [] i = false
contains (x ∷ xs) i = i == x || contains xs i

abbrev pub AllProcessors : List ℕ → Type 0
AllProcessors [] = Unit
AllProcessors (x ∷ xs) = (x < 8) × AllProcessors xs

contains-listed :
    (raw i start n : ℕ)
    → contains (listed raw start n) i ≡ (leb start i && ltb i (start + n) && bit_at raw i)
unfolding contains listed
contains-listed raw i start zero = ground arith
contains-listed raw i start (suc n) =
    ground (arith, contains-listed raw i (start + 1) n, bit_and-pow start raw)

-- The list that the loop makes.
raw_of : List ℕ → TargetList → TargetList
raw_of [] raw = raw
raw_of (cpu ∷ cpus) raw = raw_of cpus (bit_or raw (2 ^ cpu))

module _ {E S : Type 0} where
  add_targets_lem :
      (cpus : List ℕ) (raw : TargetList) (s : S)
      → AllProcessors cpus
      → add_targets {E = E} cpus raw s ≡ ok (raw_of cpus raw) s
  unfolding add_targets add_target raw_of
  add_targets_lem [] raw s h = refl
  add_targets_lem (cpu ∷ cpus) raw s (h, hs) =
      rw (lt→ltb cpu 8 h) (add_targets_lem cpus (bit_or raw (2 ^ cpu)) s hs)

bit_at-raw_of :
    (cpus : List ℕ) (raw i : ℕ) → bit_at (raw_of cpus raw) i ≡ (bit_at raw i || contains cpus i)
unfolding raw_of contains
bit_at-raw_of [] raw i = ground arith
bit_at-raw_of (cpu ∷ cpus) raw i =
    bit_at-raw_of cpus (bit_or raw (2 ^ cpu)) i
    ∙ rw (bit_at-bit_or i raw (2 ^ cpu), bit_at-pow i cpu) (ground arith)

contains_small :
    (cpus : List ℕ) (i : ℕ) → AllProcessors cpus → (ltb i 8 && contains cpus i) ≡ contains cpus i
unfolding contains
contains_small [] i h = ground arith
contains_small (cpu ∷ cpus) i (h, hs) = ground (arith, contains_small cpus i hs)

from_zero : (i : ℕ) (b : Bool) → (ltb i 8 && b) ≡ b → (leb 0 i && ltb i (0 + 8) && (false || b)) ≡ b
from_zero i b h = ground arith

-- `TargetList::new` on processors below 8 does not panic, and `cpu_id_list` of what it makes lists
-- exactly these processors.
pub new_target_list-cpu_id_list :
    {E S : Type 0} (cpus : List ℕ) (s : S)
    → AllProcessors cpus
    → (raw : TargetList) × (new_target_list {E = E} cpus s ≡ ok raw s)
      × ((i : ℕ) → contains (cpu_id_list raw) i ≡ contains cpus i)
unfolding new_target_list cpu_id_list
new_target_list-cpu_id_list cpus s h = (
  raw_of cpus 0,
  add_targets_lem cpus 0 s h,
  λ i.
      contains-listed (raw_of cpus 0) i 0 8
      ∙ rw (bit_at-raw_of cpus 0 i, bit_at-zero i)
          (from_zero i (contains cpus i) (contains_small cpus i h)),
)

-- What reading `IAR` can give.
abbrev pub Acknowledged : Ack → Type 0
Acknowledged (sgi intid cpu_id) = (intid < 16) × (cpu_id < 8)
Acknowledged (other intid) = (16 ≤ intid) × (intid < 1024)

-- Every value of `IAR` is taken for a possible acknowledgement, and to end the interrupt the code
-- writes the same id, with the same processor where the interrupt is a software interrupt and with 0
-- otherwise; a possible acknowledgement that is written as a number is read back as it was.
pub ack_round_trip :
    ((value : ℕ)
      → Acknowledged (to_ack value)
        × (eoi_value (to_ack value) % 2 ^ 10 ≡ value % 2 ^ 10)
        × (eoi_value (to_ack value) / 2 ^ 10
            ≡ (if is_sgi (value % 2 ^ 10) then value / 2 ^ 10 % 2 ^ 3 else 0)))
    × ((a : Ack) → Acknowledged a → to_ack (from_ack a) ≡ a)
unfolding to_ack from_ack eoi_value field is_sgi
ack_round_trip = (from_value, from_acknowledged)
  where
    software_value :
        (value : ℕ)
        → ltb (value % 2 ^ 10) 16 ≡ true
        → to_ack value ≡ sgi (value % 2 ^ 10) (value / 2 ^ 10 % 2 ^ 3)
    software_value value small = ground arith

    other_value :
        (value : ℕ) → ltb (value % 2 ^ 10) 16 ≡ false → to_ack value ≡ other (value % 2 ^ 10)
    other_value value big = ground arith

    from_value :
        (value : ℕ)
        → Acknowledged (to_ack value)
          × (eoi_value (to_ack value) % 2 ^ 10 ≡ value % 2 ^ 10)
          × (eoi_value (to_ack value) / 2 ^ 10
              ≡ (if is_sgi (value % 2 ^ 10) then value / 2 ^ 10 % 2 ^ 3 else 0))
    from_value value = elim (Bool-cases (ltb (value % 2 ^ 10) 16)) [
      | inl small ↦
          let low : value % 2 ^ 10 < 16 = ltb→lt _ _ small in
          rw (software_value value small, small) (omega arith)
      | inr big ↦
          let large : 16 ≤ value % 2 ^ 10 = ltb-false→le _ _ big in
          rw (other_value value big, big) (omega arith)
    ]

    from_acknowledged : (a : Ack) → Acknowledged a → to_ack (from_ack a) ≡ a
    from_acknowledged (sgi intid cpu_id) h = ground arith
    from_acknowledged (other intid) h = ground arith

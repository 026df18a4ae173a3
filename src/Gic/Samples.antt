-- ===== src/Gic/Samples.antt =====
-- A distributor whose registers hold every value, for the tests.
use native.Mathlib.Nat.{pow-suc, mod-eq_of_lt}
use sparreal_os.Prelude.{
  ◌^◌, ltb, ltb→lt, ℕ, zero, suc, ◌+◌, ◌*◌, ◌/◌, ◌%◌, ◌<◌, ◌≡◌, ◌≢◌, refl, Bool, true, false, not,
  ◌&&◌, ◌||◌, ◌==◌, ==_self, if◌then◌else◌, arith,
}
use sparreal_os.Prelude.BitAt.{bit_at}
use sparreal_os.Prelude.Fields.{bit, bit-lt}
use sparreal_os.Gic.Registers.{
  Device, DeviceLaws, Bank, ctlr, typer, igroupr, isenabler, icenabler, ispendr, icpendr, isactiver,
  icactiver, ipriorityr, itargetsr, icfgr, sgir, Status, enabled, pending, active, set_bank,
  clear_bank, Holds, ctlr_holds, igroupr_holds, ipriorityr_holds, itargetsr_holds, icfgr_holds,
}

-- The number with given bits.
pack_bits : (ℕ → Bool) → ℕ → ℕ
pack_bits f zero = 0
pack_bits f (suc n) = bit (f 0) + pack_bits (λ k. f (suc k)) n * 2

bit_at-pack_bits : (f : ℕ → Bool) (n k : ℕ) → k < n → bit_at (pack_bits f n) k ≡ f k
unfolding pack_bits bit_at
bit_at-pack_bits f zero k h = absurd (omega arith)
bit_at-pack_bits f (suc n) zero h = lowest (f 0) (pack_bits (λ k. f (suc k)) n)
  where
    lowest : (b : Bool) (p : ℕ) → ((bit b + p * 2) % 2 == 1) ≡ b
    lowest true p = ground arith
    lowest false p = ground arith
bit_at-pack_bits f (suc n) (suc k) h =
    rw (half (f 0) (pack_bits (λ k. f (suc k)) n))
      (bit_at-pack_bits (λ k. f (suc k)) n k (omega arith))
  where
    half : (b : Bool) (p : ℕ) → (bit b + p * 2) / 2 ≡ p
    half true p = omega arith
    half false p = omega arith

pub record Registers : Type 0 where
  pub control : ℕ → ℕ
  pub groups : ℕ → ℕ
  pub priorities : ℕ → ℕ
  pub targets : ℕ → ℕ
  pub triggers : ℕ → ℕ
  pub lines : ℕ
  pub status : Status → ℕ → Bool

abbrev put : (ℕ → ℕ) → ℕ → ℕ → ℕ → ℕ
put f i v j = if j == i then v else f j

abbrev same_status : Status → Status → Bool
same_status enabled enabled = true
same_status pending pending = true
same_status active active = true
same_status _ _ = false

abbrev switch_on : Status → ℕ → ℕ → Registers → Registers
switch_on st i v s = record s {
  status =
      λ st' id. s.status st' id || (same_status st st' && (id / 32 == i && bit_at v (id % 32)));
}

abbrev switch_off : Status → ℕ → ℕ → Registers → Registers
switch_off st i v s = record s {
  status =
      λ st' id. s.status st' id && not (same_status st st' && (id / 32 == i && bit_at v (id % 32)));
}

status_word : Status → ℕ → Registers → ℕ
status_word st i s = pack_bits (λ k. s.status st (i * 32 + k)) 32

pub read : Bank → ℕ → Registers → ℕ
read ctlr i s = s.control i % 2 ^ 32
read typer i s = s.lines % 2 ^ 32
read igroupr i s = s.groups i % 2 ^ 32
read isenabler i s = status_word enabled i s
read icenabler i s = status_word enabled i s
read ispendr i s = status_word pending i s
read icpendr i s = status_word pending i s
read isactiver i s = status_word active i s
read icactiver i s = status_word active i s
read ipriorityr i s = s.priorities i % 2 ^ 32
read itargetsr i s = s.targets i % 2 ^ 32
read icfgr i s = s.triggers i % 2 ^ 32
read sgir i s = 0

pub write : Bank → ℕ → ℕ → Registers → Registers
write ctlr i v s = record s { control = put s.control i v }
write typer i v s = s
write igroupr i v s = record s { groups = put s.groups i v }
write isenabler i v s = switch_on enabled i v s
write icenabler i v s = switch_off enabled i v s
write ispendr i v s = switch_on pending i v s
write icpendr i v s = switch_off pending i v s
write isactiver i v s = switch_on active i v s
write icactiver i v s = switch_off active i v s
write ipriorityr i v s = record s { priorities = put s.priorities i v }
write itargetsr i v s = record s { targets = put s.targets i v }
write icfgr i v s = record s { triggers = put s.triggers i v }
write sgir i v s = record s {
  status = λ st id. s.status st id || (same_status st pending && id == v % 16);
}

abbrev pub plain : Device
plain = record { State = Registers; read = read; write = write }

pack_bits_lt : (f : ℕ → Bool) (n : ℕ) → pack_bits f n < 2 ^ n
unfolding pack_bits
pack_bits_lt f zero = omega arith
pack_bits_lt f (suc n) = omega (arith, bit-lt (f 0), pow-suc 2 n, pack_bits_lt (λ k. f (suc k)) n)

pub read_lt : (b : Bank) (i : ℕ) (s : Registers) → read b i s < 2 ^ 32
unfolding read status_word
read_lt ctlr i s = omega arith
read_lt typer i s = omega arith
read_lt igroupr i s = omega arith
read_lt isenabler i s = pack_bits_lt (λ k. s.status enabled (i * 32 + k)) 32
read_lt icenabler i s = pack_bits_lt (λ k. s.status enabled (i * 32 + k)) 32
read_lt ispendr i s = pack_bits_lt (λ k. s.status pending (i * 32 + k)) 32
read_lt icpendr i s = pack_bits_lt (λ k. s.status pending (i * 32 + k)) 32
read_lt isactiver i s = pack_bits_lt (λ k. s.status active (i * 32 + k)) 32
read_lt icactiver i s = pack_bits_lt (λ k. s.status active (i * 32 + k)) 32
read_lt ipriorityr i s = omega arith
read_lt itargetsr i s = omega arith
read_lt icfgr i s = omega arith
read_lt sgir i s = omega arith

put_other : (f : ℕ → ℕ) (i j v : ℕ) → ¬ (i ≡ j) → put f i v j % 2 ^ 32 ≡ f j % 2 ^ 32
put_other f i j v ne = ground arith

module _ (i v : ℕ) (s : Registers) where
  pub read_typer : (b : Bank) → read typer 0 (write b i v s) ≡ read typer 0 s
  unfolding read write
  read_typer ctlr = refl
  read_typer b = refl

  pub read_self : (b : Bank) → Holds b → ltb v (2 ^ 32) ≡ true → read b i (write b i v s) ≡ v
  unfolding read write
  read_self b ctlr_holds h = rw (==_self i) (mod-eq_of_lt (ltb→lt v _ h))
  read_self b igroupr_holds h = rw (==_self i) (mod-eq_of_lt (ltb→lt v _ h))
  read_self b ipriorityr_holds h = rw (==_self i) (mod-eq_of_lt (ltb→lt v _ h))
  read_self b itargetsr_holds h = rw (==_self i) (mod-eq_of_lt (ltb→lt v _ h))
  read_self b icfgr_holds h = rw (==_self i) (mod-eq_of_lt (ltb→lt v _ h))

pub read_other :
    (b b' : Bank) (i i' v : ℕ) (s : Registers)
    → Holds b
    → ¬ ((b' ≡ b) × (i' ≡ i))
    → read b i (write b' i' v s) ≡ read b i s
unfolding read write
read_other b ctlr i i' v s ctlr_holds ne = put_other s.control i' i v (λ e. ne (refl, e))
read_other b b' i i' v s ctlr_holds ne = refl
read_other b igroupr i i' v s igroupr_holds ne = put_other s.groups i' i v (λ e. ne (refl, e))
read_other b b' i i' v s igroupr_holds ne = refl
read_other b ipriorityr i i' v s ipriorityr_holds ne =
    put_other s.priorities i' i v (λ e. ne (refl, e))
read_other b b' i i' v s ipriorityr_holds ne = refl
read_other b itargetsr i i' v s itargetsr_holds ne = put_other s.targets i' i v (λ e. ne (refl, e))
read_other b b' i i' v s itargetsr_holds ne = refl
read_other b icfgr i i' v s icfgr_holds ne = put_other s.triggers i' i v (λ e. ne (refl, e))
read_other b b' i i' v s icfgr_holds ne = refl

pub read_status :
    (st : Status) (i k : ℕ) (s : Registers)
    → k < 32
    → bit_at (read (set_bank st) i s) k ≡ s.status st (i * 32 + k)
unfolding read status_word
read_status enabled i k s h = bit_at-pack_bits (λ k. s.status enabled (i * 32 + k)) 32 k h
read_status pending i k s h = bit_at-pack_bits (λ k. s.status pending (i * 32 + k)) 32 k h
read_status active i k s h = bit_at-pack_bits (λ k. s.status active (i * 32 + k)) 32 k h

module _ (i v id : ℕ) (s : Registers) where
  abbrev hit : Bool
  hit = id / 32 == i && bit_at v (id % 32)

  pub write_set : (st : Status) → (write (set_bank st) i v s).status st id ≡ (s.status st id || hit)
  unfolding write
  write_set enabled = refl
  write_set pending = refl
  write_set active = refl

  pub write_clear :
      (st : Status) → (write (clear_bank st) i v s).status st id ≡ (s.status st id && not hit)
  unfolding write
  write_clear enabled = refl
  write_clear pending = refl
  write_clear active = refl

  ||_false : (b : Bool) → (b || false) ≡ b
  ||_false b = ground arith

  &&_true : (b : Bool) → (b && true) ≡ b
  &&_true b = ground arith

  pub write_other :
      (st : Status) (b : Bank)
      → b ≢ set_bank st
      → b ≢ clear_bank st
      → b ≢ sgir
      → (write b i v s).status st id ≡ s.status st id
  unfolding write
  write_other enabled isenabler ne ne' other = absurd (ne refl)
  write_other enabled icenabler ne ne' other = absurd (ne' refl)
  write_other enabled ispendr ne ne' other = ||_false (s.status enabled id)
  write_other enabled icpendr ne ne' other = &&_true (s.status enabled id)
  write_other enabled isactiver ne ne' other = ||_false (s.status enabled id)
  write_other enabled icactiver ne ne' other = &&_true (s.status enabled id)
  write_other enabled sgir ne ne' other = absurd (other refl)
  write_other enabled b ne ne' other = refl
  write_other pending ispendr ne ne' other = absurd (ne refl)
  write_other pending icpendr ne ne' other = absurd (ne' refl)
  write_other pending isenabler ne ne' other = ||_false (s.status pending id)
  write_other pending icenabler ne ne' other = &&_true (s.status pending id)
  write_other pending isactiver ne ne' other = ||_false (s.status pending id)
  write_other pending icactiver ne ne' other = &&_true (s.status pending id)
  write_other pending sgir ne ne' other = absurd (other refl)
  write_other pending b ne ne' other = refl
  write_other active isactiver ne ne' other = absurd (ne refl)
  write_other active icactiver ne ne' other = absurd (ne' refl)
  write_other active isenabler ne ne' other = ||_false (s.status active id)
  write_other active icenabler ne ne' other = &&_true (s.status active id)
  write_other active ispendr ne ne' other = ||_false (s.status active id)
  write_other active icpendr ne ne' other = &&_true (s.status active id)
  write_other active sgir ne ne' other = absurd (other refl)
  write_other active b ne ne' other = refl

abbrev pub plain-DeviceLaws : DeviceLaws plain
plain-DeviceLaws = record {
  on = λ st id s. s.status st id;
  writable = λ st id. true;
  keeps = λ b i v. ltb v (2 ^ 32);
  read_lt = read_lt;
  read_status = read_status;
  write_set = λ st i v id s can. write_set i v id s st;
  write_clear = λ st i v id s can. write_clear i v id s st;
  write_other = λ st b i v id s ne ne' other. write_other i v id s st b ne ne' other;
  read_self = λ b i v s holds keeps. read_self i v s b holds keeps;
  read_other = read_other;
  read_typer = λ b i v s. read_typer i v s b;
}

-- A device with 64 interrupts; the interrupt 40 is pending and has the lowest priority.
abbrev pub busy : Registers
busy = record {
  control = λ i. 0;
  groups = λ i. 0xffff_ffff;
  priorities = λ i. 0xff;
  targets = λ i. 0;
  triggers = λ i. 0;
  lines = 1;
  status = λ st id. same_status st pending && (id == 40);
}

-- ===== src/Sync.antt =====
-- crates/sparreal-kernel/src/os/sync/spinlock.rs and irq/guard.rs: one `IrqSpinlock` that several
-- processors take, with the interrupt flag of each. A processor does one atomic step at a time:
-- it asks for the lock, saves and clears its interrupt flag, tries the lock, holds it, lets it go,
-- and restores the flag.
pub mod Exclusion
mod Tests
use sparreal_os.Prelude.{ℕ, zero, suc, ◌≡◌, Bool, true, false, ◌||◌, ◌==◌, if◌then◌else◌}

-- Where a processor stands in `lock` and in the life of its guard: the attempts that are left, and
-- the `is_enabled` of its `NoIrqGuard`.
pub data Place : Type 0 where
  idle panicked : Place
  attempting : (left : ℕ) → Place
  masked failed : (left : ℕ) (is_enabled : Bool) → Place
  holding unlocked : (is_enabled : Bool) → Place

pub record Lock : Type 0 where
  pub locked : Bool
  pub irq_enabled : ℕ → Bool
  pub place : ℕ → Place

abbrev pub put {ℓ} : {A : Type ℓ} → ℕ → A → (ℕ → A) → ℕ → A
put c v f d = if d == c then v else f d

-- `Drop` for `NoIrqGuard`.
abbrev pub restore : Bool → Bool → Bool
restore is_enabled now = if is_enabled then true else now

-- The next step of processor `c`; an idle one calls `lock`, a holder drops its guard.
unfoldable pub advance : (c : ℕ) → Place → Lock → Lock
advance c idle s = record s { place = put c (attempting 100) s.place }
advance c (attempting zero) s = record s { place = put c panicked s.place }
advance c (attempting (suc left)) s = record s {
  irq_enabled = put c false s.irq_enabled;
  place = put c (masked left (s.irq_enabled c)) s.place;
}
advance c (masked left is_enabled) s =
    if s.locked
    then record s { place = put c (failed left is_enabled) s.place }
    else record s { locked = true; place = put c (holding is_enabled) s.place }
advance c (failed left is_enabled) s = record s {
  irq_enabled = put c (restore is_enabled (s.irq_enabled c)) s.irq_enabled;
  place = put c (attempting left) s.place;
}
advance c (holding is_enabled) s = record s {
  locked = false;
  place = put c (unlocked is_enabled) s.place;
}
advance c (unlocked is_enabled) s = record s {
  irq_enabled = put c (restore is_enabled (s.irq_enabled c)) s.irq_enabled;
  place = put c idle s.place;
}
advance c panicked s = s

-- The processors step in any order; an idle one may set its interrupt flag.
pub data Reachable : Lock → Type 0 where
  start :
      (irq : ℕ → Bool) → Reachable (record { locked = false; irq_enabled = irq; place = λ c. idle })
  step : (c : ℕ) {s : Lock} → Reachable s → Reachable (advance c (s.place c) s)
  set_irq :
      (c : ℕ) (enabled : Bool) {s : Lock}
      → Reachable s
      → s.place c ≡ idle
      → Reachable (record s { irq_enabled = put c enabled s.irq_enabled })

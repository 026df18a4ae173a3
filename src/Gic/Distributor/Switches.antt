-- ===== src/Gic/Distributor/Switches.antt =====
-- What is switched on and off for one interrupt, and how it is triggered, as the code reads it back.
use sparreal_os.Prelude.{◌<◌, ◌≡◌, ◌≢◌, Bool, true, ◌==◌, if◌then◌else◌}
use sparreal_os.Prelude.Outcome.{ok}
use sparreal_os.Gic.Ids.{IntId}
use sparreal_os.Gic.Distributor.{is_status}
use sparreal_os.Gic.Registers.{Device, DeviceLaws, Bank, Status, set_bank, clear_bank, sgir}

-- The registers of one status are not those of another, nor the one that makes interrupts pending.
abbrev Apart : Bank → Status → Type 0
Apart b st = (b ≢ set_bank st) × (b ≢ clear_bank st) × (b ≢ sgir)

module _ (D : Device) (laws : DeviceLaws D) where
  -- `s'` is `s` with one status of one interrupt switched.
  pub record Switched (st : Status) (id : IntId) (e : Bool) (s s' : D.State) : Type 0 where
    pub same :
        (j : IntId) (b : Bool)
        → j < 1024
        → laws.writable st j ≡ true
        → is_status D st j s ≡ ok b s
        → is_status D st j s' ≡ ok (if j == id then e else b) s'
    pub others :
        (st' : Status) (j : IntId) (b : Bool)
        → j < 1024
        → st' ≢ st
        → is_status D st' j s ≡ ok b s
        → is_status D st' j s' ≡ ok b s'

-- ===== src/Sync/Tests.antt =====
-- The theorem on the lock after processor 0 has taken it.
use sparreal_os.Prelude.{◌≡◌, refl, true, false}
use sparreal_os.Sync.{idle, holding, Lock, advance, Reachable, start, step}
use sparreal_os.Sync.Exclusion.{Exclusive, Reachable-Exclusive}

abbrev free_lock : Lock
free_lock = record { locked = false; irq_enabled = λ c. true; place = λ c. idle }

-- Asks for the lock, clears the flag, takes the lock.
abbrev once : Lock → Lock
once s = advance 0 (s.place 0) s

abbrev taken : Lock
taken = once (once (once free_lock))

taken-Reachable : Reachable taken
taken-Reachable = step 0 (step 0 (step 0 (start (λ c. true))))

taken_place : taken.place 0 ≡ holding true
unfolding advance
taken_place = refl

Reachable-Exclusive_example : Exclusive taken
Reachable-Exclusive_example = Reachable-Exclusive taken taken-Reachable

-- ===== src/Timer.antt =====
-- crates/sparreal-kernel/src/os/time/timer.rs: the one-shot timers of the kernel. A BTreeMap is
-- the list of its entries in the order of their keys; each reading of `ticks()` is an argument.
pub mod Ids
pub mod Queue
pub mod Expiry
pub mod Armed
pub mod Invariant
pub mod Service
mod Tests
use sparreal_os.Prelude.{
  ℕ, zero, suc, ◌+◌, ◌-◌, ◌/◌, ◌%◌, ◌^◌, max, Bool, true, false, ◌&&◌, ◌||◌, ◌==◌, if◌then◌else◌,
  ltb, Option, none, some, List, [], ◌∷◌, length, map,
}

abbrev pub u64_mod : ℕ
u64_mod = 2 ^ 64

abbrev pub usize_max : ℕ
usize_max = 0xffff_ffff_ffff_ffff

pub data TimerError : Type 0 where
  not_ready overflow : TimerError

pub data TimerResult (A : Type 0) : Type 0 where
  success : A → TimerResult A
  failure : TimerError → TimerResult A

pub record TimerKey : Type 0 where
  pub deadline : ℕ
  pub id : ℕ

pub record TimeListEntry : Type 0 where
  pub handle : ℕ
  pub deadline : ℕ
  pub remaining : ℕ

-- The order that `#[derive(Ord)]` gives the fields.
abbrev pub less : TimerKey → TimerKey → Bool
less j k = ltb j.deadline k.deadline || j.deadline == k.deadline && ltb j.id k.id

abbrev pub same : TimerKey → TimerKey → Bool
same j k = j.deadline == k.deadline && j.id == k.id

-- What the hardware timer was last told.
pub record Hardware : Type 0 where
  pub interval : ℕ
  pub irq_enabled : Bool

-- The index `BTreeMap<TimerId, usize>`, as pairs of an id and a deadline.
abbrev pub Index : Type 0
Index = List (ℕ × ℕ)

unfoldable pub index_get : ℕ → Index → Option ℕ
index_get i [] = none
index_get i ((j, d) ∷ rest) = if i == j then some d else index_get i rest

unfoldable pub index_remove : ℕ → Index → Index
index_remove i [] = []
index_remove i ((j, d) ∷ rest) =
    if i == j then index_remove i rest else (j, d) ∷ index_remove i rest

unfoldable pub index_insert : ℕ → ℕ → Index → Index
index_insert i d index = (i, d) ∷ index_remove i index

unfoldable pub contains_key : ℕ → Index → Bool
contains_key i index = elim (index_get i index) [ none ↦ false | some d ↦ true ]

-- The loop of `next_timer_id`: the id, and the `next_id` that it leaves.
unfoldable pub next_timer_id : (rounds : ℕ) → ℕ → Index → Option (ℕ × ℕ)
next_timer_id zero next_id index = none
next_timer_id (suc rounds) next_id index =
    let rest = next_timer_id rounds ((next_id + 1) % u64_mod) index in
    if contains_key next_id index then rest else some (next_id, (next_id + 1) % u64_mod)

module _ (Callback : Type 0) where
  abbrev pub Timers : Type 0
  Timers = List (TimerKey × Callback)

  pub record TimerManager : Type 0 where
    pub next_id : ℕ
    pub timers : Timers
    pub index : Index

  -- The manager behind its lock, and the hardware that it programs.
  pub record System : Type 0 where
    pub manager : TimerManager
    pub hardware : Hardware

module _ {Callback : Type 0} where
  -- `keys().next()`
  abbrev pub first : Timers Callback → Option TimerKey
  first [] = none
  first ((k, cb) ∷ ts) = some k

  unfoldable pub insert : TimerKey → Callback → Timers Callback → Timers Callback
  insert k cb [] = (k, cb) ∷ []
  insert k cb ((j, cb') ∷ ts) =
      if less k j
      then (k, cb) ∷ (j, cb') ∷ ts
      else if same k j
      then (j, cb) ∷ ts
      else (j, cb') ∷ insert k cb ts

  unfoldable pub remove : TimerKey → Timers Callback → Timers Callback
  remove k [] = []
  remove k ((j, cb) ∷ ts) = if same k j then ts else (j, cb) ∷ remove k ts

  unfoldable pub arm_hardware_timer : (frequency now : ℕ) → Timers Callback → Hardware
  arm_hardware_timer frequency now ts = elim (first ts) [
    | some k ↦ record {
      interval = max (k.deadline - now) (max (frequency / 10_000) 1);
      irq_enabled = true;
    }
    | none ↦ record { interval = usize_max; irq_enabled = false }
  ]

  abbrev pub new : TimerManager Callback
  new = record { next_id = 1; timers = []; index = [] }

  unfoldable pub is_earliest : ℕ → Timers Callback → Bool
  is_earliest deadline ts = elim (first ts) [ none ↦ true | some k ↦ ltb deadline k.deadline ]

  -- `schedule_at_internal`, which `schedule_at` calls; `none` if `next_timer_id` finds no id.
  unfoldable pub schedule_at :
      (frequency now deadline : ℕ) → Callback → System Callback → Option (ℕ × System Callback)
  schedule_at frequency now deadline cb s =
      elim (next_timer_id (suc (length s.manager.index)) s.manager.next_id s.manager.index) [
        | none ↦ none
        | some (id, next) ↦
            let ts = insert (record { deadline = deadline; id = id }) cb s.manager.timers in
            some (
              id,
              record {
                manager = record {
                  next_id = next;
                  timers = ts;
                  index = index_insert id deadline s.manager.index;
                };
                hardware =
                    if is_earliest deadline s.manager.timers
                    then arm_hardware_timer frequency now ts
                    else s.hardware;
              },
            )
      ]

  -- `now` is the reading of `schedule_after`, `later` that of `arm_hardware_timer`.
  unfoldable pub schedule_after :
      (frequency now later delay : ℕ)
      → Callback
      → System Callback
      → Option (TimerResult ℕ × System Callback)
  schedule_after frequency now later delay cb s =
      if ltb usize_max (now + delay)
      then some (failure overflow, s)
      else elim (schedule_at frequency later (now + delay) cb s) [
        | none ↦ none
        | some (id, s') ↦ some (success id, s')
      ]

  unfoldable pub was_first : TimerKey → Timers Callback → Bool
  was_first key ts = elim (first ts) [ none ↦ false | some k ↦ same k key ]

  unfoldable pub cancel : (frequency now : ℕ) → ℕ → System Callback → Bool × System Callback
  cancel frequency now id s = elim (index_get id s.manager.index) [
    | none ↦ (false, s)
    | some deadline ↦
        let key : TimerKey = record { deadline = deadline; id = id } in
        let ts = remove key s.manager.timers in
        (
          true,
          record {
            manager = record s.manager { timers = ts; index = index_remove id s.manager.index };
            hardware =
                if was_first key s.manager.timers
                then arm_hardware_timer frequency now ts
                else s.hardware;
          },
        )
  ]

  -- The loop of `handle_irq`: the callbacks taken, the timers and the index left.
  unfoldable pub take_expired :
      (now : ℕ) → Timers Callback → Index → List Callback × Timers Callback × Index
  take_expired now [] index = ([], [], index)
  take_expired now ((k, cb) ∷ ts) index =
      let (expired, ts', index') = take_expired now ts (index_remove k.id index) in
      if ltb now k.deadline then ([], (k, cb) ∷ ts, index) else (cb ∷ expired, ts', index')

  unfoldable pub handle_irq :
      (frequency now later : ℕ) → System Callback → List Callback × System Callback
  handle_irq frequency now later s =
      let (expired, ts, index) = take_expired now s.manager.timers s.manager.index in
      (
        expired,
        record {
          manager = record s.manager { timers = ts; index = index };
          hardware = arm_hardware_timer frequency later ts;
        },
      )

  pub snapshot : (now : ℕ) → TimerManager Callback → List TimeListEntry
  snapshot now m =
      map (λ t. record { handle = t.0.id; deadline = t.0.deadline; remaining = t.0.deadline - now })
        m.timers

-- ===== src/Timer/Ids.antt =====
-- crates/sparreal-kernel/src/os/time/timer.rs: the ids that the loop of `next_timer_id` tries.
use sparreal_os.Prelude.{
  ℕ, zero, suc, ◌+◌, ◌%◌, ◌≤◌, ◌<◌, ◌≡◌, refl, true, ◌==◌, if◌then◌else◌, none, some, [], ◌∷◌,
  length, arith, Bool-cases, inl, inr, ◌∙◌, sym, ◌≢◌, ==_false, subst, Option-cases,
}
use sparreal_os.Timer.{Index, index_get, index_remove, contains_key, next_timer_id, u64_mod}

pub index_get-index_remove :
    (i j : ℕ) (index : Index)
    → index_get i (index_remove j index) ≡ (if i == j then none else index_get i index)
unfolding index_get index_remove
index_get-index_remove i j [] = ground arith
index_get-index_remove i j ((k, d) ∷ rest) =
    let ih = index_get-index_remove i j rest in ground arith

contains_key_other :
    (i j : ℕ) (index : Index) → i ≢ j → contains_key i (index_remove j index) ≡ contains_key i index
unfolding contains_key
contains_key_other i j index ne =
    rw (contains_key, index_get-index_remove i j index, ==_false i j ne)

length-index_remove_le : (i : ℕ) (index : Index) → length (index_remove i index) ≤ length index
unfolding index_remove
length-index_remove_le i [] = omega arith
length-index_remove_le i ((j, d) ∷ rest) = let ih = length-index_remove_le i rest in ground arith

length-index_remove :
    (i : ℕ) (index : Index)
    → contains_key i index ≡ true
    → length (index_remove i index) < length index
unfolding contains_key index_get index_remove
length-index_remove i [] h = ground arith
length-index_remove i ((j, d) ∷ rest) h = elim (Bool-cases (i == j)) [
  | inl e ↦ rw e (omega (arith, length-index_remove_le i rest))
  | inr e ↦ rw e (omega (arith, length-index_remove i rest (ground arith)))
]

-- The answer depends on the candidates alone.
candidates :
    (rounds next_id : ℕ) (index index' : Index)
    → next_id < u64_mod
    → ((k : ℕ)
        → k < rounds
        → contains_key ((next_id + k) % u64_mod) index
          ≡ contains_key ((next_id + k) % u64_mod) index')
    → next_timer_id rounds next_id index ≡ next_timer_id rounds next_id index'
unfolding next_timer_id
candidates zero next_id index index' small agree = refl
candidates (suc r) next_id index index' small agree =
    let now : (next_id + 0) % u64_mod ≡ next_id = omega arith in
    let here : contains_key next_id index ≡ contains_key next_id index' =
      subst (λ n. contains_key n index ≡ contains_key n index') now (agree 0 (omega arith)) in
    let later = candidates r ((next_id + 1) % u64_mod) index index' (omega arith) (λ k h.
      let shift : (next_id + suc k) % u64_mod ≡ ((next_id + 1) % u64_mod + k) % u64_mod =
        omega arith in
      subst (λ n. contains_key n index ≡ contains_key n index') shift
        (agree (suc k) (omega arith))) in
    rw (here, later)

found :
    (rounds next_id : ℕ) (index : Index)
    → rounds ≤ u64_mod
    → next_id < u64_mod
    → length index < rounds
    → (r : ℕ × ℕ) × (next_timer_id rounds next_id index ≡ some r)
unfolding next_timer_id
found zero next_id index h small enough = absurd (omega arith)
found (suc r) next_id index h small enough = elim (Bool-cases (contains_key next_id index)) [
  | inr free ↦ ((next_id, (next_id + 1) % u64_mod), rw free)
  | inl taken ↦
      let index' = index_remove next_id index in
      let shorter = length-index_remove next_id index taken in
      let (x, e) =
        found r ((next_id + 1) % u64_mod) index' (omega arith) (omega arith) (omega arith) in
      let agree =
        candidates r ((next_id + 1) % u64_mod) index' index (omega arith)
          (λ k small'. contains_key_other _ next_id index (λ same. absurd (omega arith))) in
      (x, rw taken (sym agree ∙ e))
]

fresh :
    (rounds next_id : ℕ) (index : Index) {id next : ℕ}
    → next_id < u64_mod
    → next_timer_id rounds next_id index ≡ some (id, next)
    → (index_get id index ≡ none) × (id < u64_mod) × (next ≡ (id + 1) % u64_mod)
unfolding next_timer_id contains_key
fresh zero next_id index small e = ground arith
fresh (suc r) next_id index small e = elim (Option-cases (index_get next_id index)) [
  | inl free ↦ ground arith
  | inr (d, taken) ↦ fresh r ((next_id + 1) % u64_mod) index (omega arith) (ground arith)
]

-- With fewer than 2 ^ 64 timers, the loop that looks for an id ends within one round more than
-- there are timers, and the id that it finds is one that no pending timer has.
pub next_timer_id-fresh :
    (next_id : ℕ) (index : Index)
    → next_id < u64_mod
    → length index < u64_mod
    → (id : ℕ) × (next_timer_id (suc (length index)) next_id index ≡ some (id, (id + 1) % u64_mod))
      × (index_get id index ≡ none)
      × (id < u64_mod)
next_timer_id-fresh next_id index small few =
    let ((id, next), e) =
      found (suc (length index)) next_id index (omega arith) small (omega arith) in
    let (free, bound, after) = fresh (suc (length index)) next_id index small e in
    (
      id,
      subst (λ n. next_timer_id (suc (length index)) next_id index ≡ some (id, n)) after e,
      free,
      bound,
    )

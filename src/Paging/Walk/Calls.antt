-- ===== src/Paging/Walk/Calls.antt =====
-- The calls of `next`, one after the other.
use sparreal_os.Prelude.{
  ℕ, zero, suc, ◌+◌, ◌-◌, ◌*◌, ◌^◌, ◌≤◌, ◌<◌, ◌≡◌, refl, sym, ap, ◌∙◌, subst, inl, inr, true, false,
  Option, none, some, List, [], ◌∷◌, ◌++◌, map, take, if◌then◌else◌, ltb, Bool-cases, arith,
}
use sparreal_os.Paging.Config.{PhysAddr, usize_mod}
use sparreal_os.Paging.Geometry.{valid_bits, level_index_bits}
use sparreal_os.Paging.Geometry.Shifts.{shift, low_bits-le, pow-le, pow-add}
use sparreal_os.Paging.Meta.{TableMeta, FrameAllocator, Machine, table_levels}
use sparreal_os.Paging.Walk.{
  WalkConfig, PageTableWalker, PteInfo, Round, Answer, entry, finished_walk, panicked, no_fuel,
  new_walker, walk_round, after_round, find_next_entry, remaining, next,
}
use sparreal_os.Paging.Walk.Entries.{walk_entries, stack_entries, cut, WalkLaws}
use sparreal_os.Paging.Walk.Order.{
  Nested, empty, inside, left, Gives, gives_item, gives_end, gives_again, walk_round-Gives,
}

module _ (T : TableMeta) (A : FrameAllocator) (m : Machine T A) where
  -- What `n` calls of `next` give; `none` stands for a panic.
  unfoldable pub with_answer :
      (PageTableWalker → List (Option (PteInfo T))) → Answer T → List (Option (PteInfo T))
  with_answer rest (entry i w') = some i ∷ rest w'
  with_answer rest (finished_walk w') = []
  with_answer rest panicked = none ∷ []
  with_answer rest no_fuel = none ∷ []

  unfoldable pub calls : ℕ → PageTableWalker → List (Option (PteInfo T))
  calls zero w = []
  calls (suc n) w = with_answer (calls n) (next T A m w)

  -- The entries of the range, in the order of the recursion over the tables from the root.
  unfoldable pub traversal : PhysAddr → WalkConfig → List (PteInfo T)
  traversal root c =
      if ltb c.start_vaddr c.end_vaddr
      then cut T A m c.start_vaddr c.end_vaddr
          (walk_entries T A m c.start_vaddr (table_levels T) T.entries root 0 0)
      else []

  module _ (laws : WalkLaws T) where
    data Next (w : PageTableWalker) : Answer T → Type 0 where
      one :
          {i : PteInfo T} {w' : PageTableWalker}
          → Nested T laws w'.stack
          → w'.finished ≡ false
          → left T laws A m w w.stack ≡ i ∷ left T laws A m w' w'.stack
          → Next w (entry i w')
      end_ : {w' : PageTableWalker} → left T laws A m w w.stack ≡ [] → Next w (finished_walk w')

    after_round-Next :
        (fuel : ℕ) (w : PageTableWalker)
        → w.finished ≡ false
        → ((v : PageTableWalker)
            → Nested T laws v.stack
            → v.finished ≡ false
            → remaining T A m v.stack < fuel
            → Next v (find_next_entry T A m fuel v))
        → remaining T A m w.stack < suc fuel
        → (r : Round T) → Gives T laws A m w w.stack r
        → Next w (after_round T A m (find_next_entry T A m fuel) r)
    unfolding after_round
    after_round-Next fuel w open_ ih enough _ (gives_item nested e) = one nested open_ e
    after_round-Next fuel w open_ ih enough _ (gives_end e) = end_ e
    after_round-Next fuel w open_ ih enough _ (gives_again {q'} nested e fewer) =
        relay e (ih (record w { stack = q' }) nested open_ (omega arith))
      where
        relay :
            {v : PageTableWalker} {a : Answer T}
            → left T laws A m v v.stack ≡ left T laws A m w w.stack
            → Next v a
            → Next w a
        relay e (one nested open_ e') = one nested open_ (sym e ∙ e')
        relay e (end_ e') = end_ (sym e ∙ e')

    find_next_entry-Next :
        (fuel : ℕ) (w : PageTableWalker)
        → Nested T laws w.stack
        → w.finished ≡ false
        → remaining T A m w.stack < fuel
        → Next w (find_next_entry T A m fuel w)
    unfolding find_next_entry
    find_next_entry-Next zero w nested open_ enough = absurd (omega arith)
    find_next_entry-Next (suc fuel) w nested open_ enough =
        subst
          (λ b. Next w (
            if b
            then finished_walk w
            else after_round T A m (find_next_entry T A m fuel) (walk_round T A m w w.stack)))
          (sym open_)
          (after_round-Next fuel w open_ (find_next_entry-Next fuel) enough _
            (walk_round-Gives T laws A m w w.stack nested))

    with_answer-left :
        (n : ℕ) (w : PageTableWalker)
        → ((v : PageTableWalker)
            → Nested T laws v.stack
            → v.finished ≡ false
            → calls n v ≡ map some (take n (left T laws A m v v.stack)))
        → (a : Answer T) → Next w a
        → with_answer (calls n) a ≡ map some (take (suc n) (left T laws A m w w.stack))
    unfolding with_answer
    with_answer-left n w ih _ (one {i} {w'} nested open_ e) =
        ap (λ r. some i ∷ r) (ih w' nested open_) ∙ sym (ap (λ r. map some (take (suc n) r)) e)
    with_answer-left n w ih _ (end_ e) = sym (ap (λ r. map some (take (suc n) r)) e)

    calls-left :
        (n : ℕ) (w : PageTableWalker)
        → Nested T laws w.stack
        → w.finished ≡ false
        → calls n w ≡ map some (take n (left T laws A m w w.stack))
    unfolding calls next
    calls-left zero w nested open_ = refl
    calls-left (suc n) w nested open_ =
        with_answer-left n w (calls-left n) _
          (find_next_entry-Next (suc (remaining T A m w.stack)) w nested open_ (omega arith))

    take_nothing : (n : ℕ) → ◌≡◌ {A = List (Option (PteInfo T))} [] (map some (take n []))
    take_nothing zero = refl
    take_nothing (suc n) = refl

    finished-calls : (n : ℕ) (w : PageTableWalker) → w.finished ≡ true → calls n w ≡ []
    unfolding calls next find_next_entry with_answer
    finished-calls zero w closed = refl
    finished-calls (suc n) w closed = rw closed

    -- The root covers no more than the address space.
    root_room : (l : ℕ) → 0 < l → l ≤ table_levels T → T.entries * 2 ^ shift T l ≤ usize_mod
    unfolding valid_bits
    root_room l pos h =
        let size : T.entries * 2 ^ shift T l ≡ 2 ^ (level_index_bits T l + shift T l) =
          ap (λ n. n * 2 ^ shift T l) (laws.full l pos h)
          ∙ sym (pow-add (level_index_bits T l) (shift T l)) in
        let fits : level_index_bits T l + shift T l ≤ 64 =
          omega (arith, low_bits-le T l pos h, laws.geometry.width) in
        omega (arith, size, pow-le (level_index_bits T l + shift T l) 64 fits)

    append_nil : (xs : List (PteInfo T)) → xs ++ [] ≡ xs
    append_nil [] = refl
    append_nil (x ∷ xs) = ap (λ r. x ∷ r) (append_nil xs)

    root_entries :
        (root start : ℕ)
        → stack_entries T A m start
            (record { frame = root; level = table_levels T; index = 0; base_vaddr = 0 } ∷ [])
          ≡ walk_entries T A m start (table_levels T) T.entries root 0 0
    unfolding stack_entries
    root_entries root start =
        let whole : T.entries - 0 ≡ T.entries = omega arith in rw whole (append_nil _)

    -- The root as the only table of the stack.
    root_Nested :
        (root : PhysAddr)
        → Nested T laws
            (record { frame = root; level = table_levels T; index = 0; base_vaddr = 0 } ∷ [])
    root_Nested root =
        let l = table_levels T - 1 in
        let top : suc l ≡ table_levels T = omega (arith, laws.geometry.nonempty) in
        subst
          (λ k. Nested T laws (record { frame = root; level = k; index = 0; base_vaddr = 0 } ∷ []))
          top
          (inside (omega (arith, top))
            (omega (arith, root_room (suc l) (omega arith) (omega (arith, top)))) empty)

    -- Where a table has just the entries that its index can name, and there are at most eight levels:
    -- however often `next` is called on a new walker, it never panics, and it has given the entries of
    -- the range in the order of a recursion over the tables from the root, each entry before those of
    -- the table that it points at, which are left out where the entry begins below the start.
    pub calls-traversal :
        (root : PhysAddr) (c : WalkConfig) (n : ℕ)
        → calls n (new_walker T A m root c) ≡ map some (take n (traversal root c))
    unfolding new_walker traversal
    calls-traversal root c n = elim (Bool-cases (ltb c.start_vaddr c.end_vaddr)) [
      | inl some_ ↦ rw some_ (
          calls-left n _ (root_Nested root) refl
          ∙ ap (λ r. map some (take n (cut T A m c.start_vaddr c.end_vaddr r)))
              (root_entries root c.start_vaddr))
      | inr none_ ↦ rw none_ (finished-calls n _ refl ∙ take_nothing n)
    ]

-- ===== src/Paging/Walk/Order.antt =====
-- The order in which the walker gives the entries: that of a recursion over the tables, with no stack.
use native.Mathlib.Nat.{mul-le-mul_right, add-mul}
use sparreal_os.Prelude.{
  ℕ, zero, suc, ◌+◌, ◌-◌, ◌*◌, ◌^◌, ◌≤◌, ◌<◌, ◌≡◌, refl, sym, ap, ◌∙◌, inl, inr, true, false, some,
  List, [], ◌∷◌, ◌++◌, length, ltb, leb, Bool-cases, arith, lt→ltb, leb→le,
}
use sparreal_os.Prelude.Bits.{pow-pos}
use sparreal_os.Paging.Config.{VirtAddr, usize_mod}
use sparreal_os.Paging.Geometry.{level_size, level_index_bits}
use sparreal_os.Paging.Geometry.Shifts.{shift, level_size_lem, low_bits-suc, pow-add}
use sparreal_os.Paging.Meta.{TableMeta, FrameAllocator, Machine, table_levels}
use sparreal_os.Paging.Walk.{
  WalkState, PageTableWalker, push_state, next_index, PteInfo, Round, item, again, ended,
  entry_vaddr, info_of, goes_into, child_state, visit, in_range, walk_round, remaining,
}
use sparreal_os.Paging.Walk.Entries.{walk_entries, stack_entries, cut, WalkLaws}

not_lt : (a b : ℕ) → b ≤ a → ltb a b ≡ false
not_lt a b h = ground arith

append_assoc {ℓ} : {B : Type ℓ} (xs ys zs : List B) → (xs ++ ys) ++ zs ≡ xs ++ (ys ++ zs)
append_assoc [] ys zs = refl
append_assoc (x ∷ xs) ys zs = ap (λ r. x ∷ r) (append_assoc xs ys zs)

module _ (T : TableMeta) (laws : WalkLaws T) where
  -- The stack of a walker: the levels fall, and each table lies in the address space.
  pub data Nested : List WalkState → Type 0 where
    empty : Nested []
    inside :
        {frame l index base : ℕ} {ss : List WalkState}
        → suc l + length ss ≤ table_levels T
        → base + T.entries * 2 ^ shift T (suc l) ≤ usize_mod
        → Nested ss
        → Nested (record { frame = frame; level = suc l; index = index; base_vaddr = base } ∷ ss)

  -- An entry of a table that lies in the address space.
  entry_lt :
      (l index base : ℕ)
      → 0 < l
      → l ≤ table_levels T
      → index < T.entries
      → base + T.entries * 2 ^ shift T l ≤ usize_mod
      → base + index * level_size T l + 2 ^ shift T l ≤ usize_mod
  entry_lt l index base pos h lt room =
      let p = 2 ^ shift T l in
      let size = level_size_lem T laws.geometry l pos h in
      let step : (index + 1) * p ≤ T.entries * p = mul-le-mul_right p (omega (arith, lt)) in
      rw size (omega (arith, room, step, add-mul index 1 p))

  entry_vaddr_lem :
      (l index base : ℕ)
      → 0 < l
      → l ≤ table_levels T
      → index < T.entries
      → base + T.entries * 2 ^ shift T l ≤ usize_mod
      → entry_vaddr T index l base ≡ some (base + index * level_size T l)
  unfolding entry_vaddr
  entry_vaddr_lem l index base pos h lt room =
      let small : base + index * level_size T l < usize_mod =
        omega (arith, entry_lt l index base pos h lt room, pow-pos (shift T l)) in
      rw (lt→ltb _ _ small)

  -- The table below an entry lies in the address space.
  child_room :
      (l vaddr : ℕ)
      → 0 < l
      → suc l ≤ table_levels T
      → vaddr + 2 ^ shift T (suc l) ≤ usize_mod
      → vaddr + T.entries * 2 ^ shift T l ≤ usize_mod
  child_room l vaddr pos h room =
      let size : T.entries * 2 ^ shift T l ≡ 2 ^ shift T (suc l) =
        ap (λ n. n * 2 ^ shift T l) (laws.full l pos (omega arith))
        ∙ sym (pow-add (level_index_bits T l) (shift T l))
        ∙ ap (λ k. 2 ^ k) (omega (arith, low_bits-suc T l pos h)) in
      omega (arith, room)

  module _ (A : FrameAllocator) (m : Machine T A) (w : PageTableWalker) where
    -- What the walker still gives from a stack.
    abbrev pub left : List WalkState → List (PteInfo T)
    left q =
        cut T A m w.config.start_vaddr w.config.end_vaddr
          (stack_entries T A m w.config.start_vaddr q)

    -- What a round does to it.
    pub data Gives (q : List WalkState) : Round T → Type 0 where
      gives_item :
          {i : PteInfo T} {q' : List WalkState}
          → Nested q'
          → left q ≡ i ∷ left q'
          → Gives q (item i (record w { stack = q' }))
      gives_end :
          {q' : List WalkState}
          → left q ≡ []
          → Gives q (ended (record w { stack = q'; finished = true }))
      gives_again :
          {q' : List WalkState}
          → Nested q'
          → left q' ≡ left q
          → remaining T A m q' < remaining T A m q
          → Gives q (again (record w { stack = q' }))

    module _ (frame l index base : ℕ) (ss : List WalkState)
        (depth : suc l + length ss ≤ table_levels T)
        (room : base + T.entries * 2 ^ shift T (suc l) ≤ usize_mod) (nested : Nested ss) where
      abbrev top : WalkState
      top = record { frame = frame; level = suc l; index = index; base_vaddr = base }

      abbrev here : VirtAddr
      here = base + index * level_size T (suc l)

      -- A table that has been read to its end.
      popped : T.entries ≤ index → Gives (top ∷ ss) (again (record w { stack = ss }))
      unfolding stack_entries walk_entries remaining
      popped over =
          let none_left : T.entries - index ≡ 0 = omega arith in
          gives_again nested (rw none_left refl) (omega arith)

      module _ (more : index < T.entries) where
        one_less : T.entries - index ≡ suc (T.entries - suc index)
        one_less = omega arith

        next_Nested : Nested (next_index top ∷ ss)
        next_Nested = inside depth room nested

        skipped :
            ltb here w.config.start_vaddr ≡ true
            → Gives (top ∷ ss) (again (record w { stack = next_index top ∷ ss }))
        unfolding stack_entries walk_entries remaining
        skipped early = gives_again next_Nested (rw (one_less, early) refl) (omega arith)

        behind :
            ltb here w.config.start_vaddr ≡ false
            → leb w.config.end_vaddr here ≡ true
            → Gives (top ∷ ss) (ended (record w { stack = next_index top ∷ ss; finished = true }))
        unfolding stack_entries walk_entries cut info_of
        behind late out =
            gives_end (rw (one_less, late, not_lt here w.config.end_vaddr (leb→le _ _ out)) refl)

        flat :
            ltb here w.config.start_vaddr ≡ false
            → ltb here w.config.end_vaddr ≡ true
            → goes_into T (suc l) (m.table frame index) ≡ false
            → left (top ∷ ss)
              ≡ info_of T (suc l) here (m.table frame index) ∷ left (next_index top ∷ ss)
        unfolding stack_entries walk_entries cut info_of
        flat late in_ no_child = rw (one_less, late, no_child, in_) refl

    -- An entry that points at a table, which is pushed.
    module _ (frame l index base : ℕ) (ss : List WalkState)
        (depth : suc (suc l) + length ss ≤ table_levels T)
        (room : base + T.entries * 2 ^ shift T (suc (suc l)) ≤ usize_mod) (nested : Nested ss)
        (more : index < T.entries) where
      abbrev outer : WalkState
      outer = record { frame = frame; level = suc (suc l); index = index; base_vaddr = base }

      abbrev entry_start : VirtAddr
      entry_start = base + index * level_size T (suc (suc l))

      abbrev below : WalkState
      below = record {
        frame = (T.to_config (m.table frame index) (ltb 1 (suc (suc l)))).paddr;
        level = suc l;
        index = 0;
        base_vaddr = entry_start;
      }

      below_Nested : Nested (below ∷ next_index outer ∷ ss)
      below_Nested =
          inside (omega (arith, depth))
            (child_room (suc l) entry_start (omega arith) (omega (arith, depth))
              (entry_lt (suc (suc l)) index base (omega arith) (omega (arith, depth)) more room))
            (inside depth room nested)

      deep :
          ltb entry_start w.config.start_vaddr ≡ false
          → ltb entry_start w.config.end_vaddr ≡ true
          → goes_into T (suc (suc l)) (m.table frame index) ≡ true
          → left (outer ∷ ss)
            ≡ info_of T (suc (suc l)) entry_start (m.table frame index)
              ∷ left (below ∷ next_index outer ∷ ss)
      unfolding stack_entries walk_entries cut info_of
      deep late in_ child =
          let one_less' : T.entries - index ≡ suc (T.entries - suc index) = omega arith in
          let whole : T.entries - 0 ≡ T.entries = omega arith in
          rw (one_less', late, child, in_, whole)
            (ap
              (λ r.
                info_of T (suc (suc l)) entry_start (m.table frame index)
                ∷ cut T A m w.config.start_vaddr w.config.end_vaddr r)
              (append_assoc
                (walk_entries T A m w.config.start_vaddr (suc l) T.entries below.frame 0
                  entry_start)
                (walk_entries T A m w.config.start_vaddr (suc (suc l)) (T.entries - suc index) frame
                  (suc index) base)
                (stack_entries T A m w.config.start_vaddr ss)))

      pushed :
          push_state
            (child_state T (suc (suc l)) entry_start (m.table frame index))
            (next_index outer ∷ ss)
          ≡ below ∷ next_index outer ∷ ss
      unfolding push_state
      pushed =
          let shallow : length (next_index outer ∷ ss) < 8 = omega (arith, depth, laws.shallow) in
          let down : suc (suc l) - 1 ≡ suc l = omega arith in rw (lt→ltb _ _ shallow, down) refl

    -- A page has no table below it.
    goes_into_page : (pte : T.Pte) → goes_into T 1 pte ≡ false
    unfolding goes_into
    goes_into_page pte = ground arith

    visit-Gives :
        (frame l index base : ℕ) (ss : List WalkState) (depth : suc l + length ss ≤ table_levels T)
        (room : base + T.entries * 2 ^ shift T (suc l) ≤ usize_mod) (nested : Nested ss)
        (more : index < T.entries)
        → ltb (base + index * level_size T (suc l)) w.config.start_vaddr ≡ false
        → ltb (base + index * level_size T (suc l)) w.config.end_vaddr ≡ true
        → Gives (top frame l index base ss depth room nested ∷ ss) (
            visit T A m w
              (top frame l index base ss depth room nested)
              ss
              (base + index * level_size T (suc l))
              (m.table frame index))
    unfolding visit
    visit-Gives frame zero index base ss depth room nested more late in_ =
        let no_child = goes_into_page (m.table frame index) in
        rw no_child (
          gives_item (inside depth room nested)
            (flat frame zero index base ss depth room nested more late in_ no_child))
    visit-Gives frame (suc l) index base ss depth room nested more late in_ =
        elim (Bool-cases (goes_into T (suc (suc l)) (m.table frame index))) [
          | inr no_child ↦ rw no_child (
              gives_item (inside depth room nested)
                (flat frame (suc l) index base ss depth room nested more late in_ no_child))
          | inl child ↦
              rw (child, pushed frame l index base ss depth room nested more)
                (gives_item (below_Nested frame l index base ss depth room nested more)
                  (deep frame l index base ss depth room nested more late in_ child))
        ]

    pub walk_round-Gives : (q : List WalkState) → Nested q → Gives q (walk_round T A m w q)
    unfolding walk_round in_range stack_entries cut
    walk_round-Gives _ empty = gives_end refl
    walk_round-Gives _ (inside {frame} {l} {index} {base} {ss} depth room nested) =
        elim (Bool-cases (leb T.entries index)) [
          | inl over ↦ rw over (popped frame l index base ss depth room nested (leb→le _ _ over))
          | inr inner ↦
              let more : index < T.entries = ground arith in
              let vaddr =
                entry_vaddr_lem (suc l) index base (omega arith) (omega (arith, depth)) more room in
              let start = here frame l index base ss depth room nested in
              elim (Bool-cases (ltb start w.config.start_vaddr)) [
                | inl early ↦
                    rw (inner, vaddr, early)
                      (skipped frame l index base ss depth room nested more early)
                | inr late ↦ elim (Bool-cases (leb w.config.end_vaddr start)) [
                  | inl out ↦
                      rw (inner, vaddr, late, out)
                        (behind frame l index base ss depth room nested more late out)
                  | inr in_ ↦
                      let in' : ltb start w.config.end_vaddr ≡ true = ground arith in
                      rw (inner, vaddr, late, in_)
                        (visit-Gives frame l index base ss depth room nested more late in')
                ]
              ]
        ]

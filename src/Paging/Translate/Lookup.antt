-- ===== src/Paging/Translate/Lookup.antt =====
-- What a page table means: the entry that maps an address, by recursion on the levels, with no
-- panics and no bounds checks; and the walk of `translate_recursive_with_level` against it.
use sparreal_os.Prelude.{
  ℕ, zero, suc, ◌≤◌, ◌<◌, ◌≡◌, refl, sym, ap, ◌⊎◌, ◌∙◌, inl, inr, true, false, Option, none, some,
  ◌||◌, ◌==◌, if◌then◌else◌, ltb, lt→ltb, arith,
}
use sparreal_os.Prelude.Outcome.{Run, ok, err}
use sparreal_os.Paging.Config.{PhysAddr, VirtAddr, not_mapped, PagingError}
use sparreal_os.Paging.Frame.Entries.{index_of_lem, read_entry_lem}
use sparreal_os.Paging.Geometry.{GeometryLaws}
use sparreal_os.Paging.Geometry.Slots.{index}
use sparreal_os.Paging.Meta.{TableMeta, FrameAllocator, Machine, table_levels, EntryLaws}
use sparreal_os.Paging.Translate.{translate_recursive_with_level}

-- An entry maps a page or a block, points at a table, or does neither.
pub data Kind : Type 0 where
  vacant mapping : Kind
  pointer : PhysAddr → Kind

pub Kind-cases : (k : Kind) → (k ≡ vacant) ⊎ (k ≡ mapping) ⊎ ((q : PhysAddr) × (k ≡ pointer q))
Kind-cases vacant = inl refl
Kind-cases mapping = inr (inl refl)
Kind-cases (pointer q) = inr (inr (q, refl))

module _ (T : TableMeta) where
  -- The kind of an entry of a table at level `suc l`.
  unfoldable pub kind : ℕ → T.Pte → Kind
  kind l pte =
      let c = T.to_config pte (ltb 1 (suc l)) in
      if c.valid then (if c.huge || suc l == 1 then mapping else pointer c.paddr) else vacant

  -- The kind of an entry, from its decoded form.
  pub kind_invalid : EntryLaws T → (l : ℕ) (pte : T.Pte) → T.valid pte ≡ false → kind l pte ≡ vacant
  unfolding kind
  kind_invalid laws l pte h = rw (← laws.valid_lem pte (ltb 1 (suc l)), h, kind)

  pub kind_page : (pte : T.Pte) → (T.to_config pte false).valid ≡ true → kind 0 pte ≡ mapping
  unfolding kind
  kind_page pte h = ground arith

  module _ (l : ℕ) (pte : T.Pte) (pos : 0 < l) (valid : (T.to_config pte true).valid ≡ true) where
    pub kind_block : (T.to_config pte true).huge ≡ true → kind l pte ≡ mapping
    unfolding kind
    kind_block huge =
        let dir : ltb 1 (suc l) ≡ true = lt→ltb _ _ (omega arith) in rw (dir, valid, huge)

    pub kind_dir :
        (T.to_config pte true).huge ≡ false → kind l pte ≡ pointer (T.to_config pte true).paddr
    unfolding kind
    kind_dir not_huge =
        let dir : ltb 1 (suc l) ≡ true = lt→ltb _ _ (omega arith) in
        rw (dir, valid, not_huge) (ground arith)

  pub kind_zero : EntryLaws T → (l : ℕ) → kind l T.zero_entry ≡ vacant
  unfolding kind
  kind_zero laws l = rw (laws.zero_entry_lem (ltb 1 (suc l)))

module _ (T : TableMeta) (A : FrameAllocator) where
  unfoldable pub lookup : Machine T A → ℕ → PhysAddr → VirtAddr → Option (T.Pte × ℕ)
  lookup m zero frame vaddr = none
  lookup m (suc l) frame vaddr =
      let pte = m.table frame (index T (suc l) vaddr) in
      elim (kind T l pte) [
        | vacant ↦ none
        | mapping ↦ some (pte, suc l)
        | pointer child ↦ lookup m l child vaddr
      ]

  -- A step of the walk, by the kind of the entry.
  module _ (m : Machine T A) (l frame v : ℕ) where
    abbrev pub entry_at : T.Pte
    entry_at = m.table frame (index T (suc l) v)

    pub lookup_vacant : kind T l entry_at ≡ vacant → lookup m (suc l) frame v ≡ none
    unfolding lookup
    lookup_vacant k = rw (k, lookup)

    pub lookup_mapping :
        kind T l entry_at ≡ mapping → lookup m (suc l) frame v ≡ some (entry_at, suc l)
    unfolding lookup
    lookup_mapping k = rw (k, lookup)

    pub lookup_pointer :
        {child : PhysAddr}
        → kind T l entry_at ≡ pointer child
        → lookup m (suc l) frame v ≡ lookup m l child v
    unfolding lookup
    lookup_pointer k = rw (k, lookup)

  -- Two memories with the same entry give the same answer if their tables below do.
  pub lookup_same :
      (m m' : Machine T A) (l p v : ℕ)
      → m'.table p (index T (suc l) v) ≡ m.table p (index T (suc l) v)
      → ((q : PhysAddr)
          → kind T l (m.table p (index T (suc l) v)) ≡ pointer q
          → lookup m' l q v ≡ lookup m l q v)
      → lookup m' (suc l) p v ≡ lookup m (suc l) p v
  lookup_same m m' l p v same below = elim (Kind-cases (kind T l (m.table p (index T (suc l) v)))) [
    | inl k ↦ lookup_vacant m' l p v (ap (kind T l) same ∙ k) ∙ sym (lookup_vacant m l p v k)
    | inr (inl k) ↦
        lookup_mapping m' l p v (ap (kind T l) same ∙ k)
        ∙ ap (λ e. some (e, suc l)) same
        ∙ sym (lookup_mapping m l p v k)
    | inr (inr (q, k)) ↦
        lookup_pointer m' l p v (ap (kind T l) same ∙ k)
        ∙ below q k
        ∙ sym (lookup_pointer m l p v k)
  ]

  -- A cleared table maps nothing.
  pub lookup_cleared :
      EntryLaws T
      → (m : Machine T A) (l p v : ℕ) → ((j : ℕ) → m.table p j ≡ T.zero_entry)
      → lookup m l p v ≡ none
  unfolding lookup
  lookup_cleared laws m zero p v clear = refl
  lookup_cleared laws m (suc l) p v clear =
      lookup_vacant m l p v (ap (kind T l) (clear _) ∙ kind_zero T laws l)

  abbrev pub found : Machine T A → Option (T.Pte × ℕ) → Run PagingError (Machine T A) (T.Pte × ℕ)
  found m none = err not_mapped m
  found m (some r) = ok r m

  module _ (g : GeometryLaws T) where
    -- From a table of any level that the page table has, the walk returns the entry that the table
    -- means for the address, or fails with `NotMapped`; it never panics.
    pub translate-lookup :
        (m : Machine T A) (l : ℕ) (frame v : ℕ)
        → suc l ≤ table_levels T
        → translate_recursive_with_level T A (suc l) frame v m ≡ found m (lookup m (suc l) frame v)
    unfolding translate_recursive_with_level lookup kind
    translate-lookup m zero frame v h =
        rw
          (
            index_of_lem T A g m v 1 (omega arith) h,
            read_entry_lem T A g m frame v 1 (omega arith) h,
          )
          (ground arith)
    translate-lookup m (suc l) frame v h =
        rw
          (
            index_of_lem T A g m v (suc (suc l)) (omega arith) h,
            read_entry_lem T A g m frame v (suc (suc l)) (omega arith) h,
          )
          (ground (
            arith,
            translate-lookup m l
                (T.to_config (m.table frame (index T (suc (suc l)) v)) (ltb 1 (suc (suc l)))).paddr
                v (omega arith),
          ))

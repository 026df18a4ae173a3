-- ===== src/Paging/Unmap/Rounds.antt =====
-- One round of the loop of `unmap_range_recursive`.
use native.Mathlib.Nat.{mod_self, mul-mod_left}
use sparreal_os.Prelude.{
  ℕ, suc, ◌+◌, ◌-◌, ◌/◌, ◌%◌, ◌^◌, ◌≤◌, ◌<◌, ◌≡◌, refl, sym, ap, ◌∙◌, inl, inr, Bool, true, false,
  none, some, arith, ◌==◌, Bool-cases, if◌then◌else◌, ltb, lt→ltb, min, subst,
}
use sparreal_os.Prelude.Bits.{pow-pos}
use sparreal_os.Prelude.Outcome.{ok, Run, Ensures, returns}
use sparreal_os.Paging.Config.{PhysAddr, PteConfig, PagingError, usize_mod, invalid_config}
use sparreal_os.Paging.Frame.{store_entry, flush_if, checked}
use sparreal_os.Paging.Frame.Entries.{index_of_lem, read_entry_lem}
use sparreal_os.Paging.Geometry.{GeometryLaws, level_size}
use sparreal_os.Paging.Geometry.Shifts.{shift, add-aligned, level_size_lem, page_size_lem}
use sparreal_os.Paging.Geometry.Slots.{
  slot, index, region, slot_of_block, slot_until, index_of_slot,
}
use sparreal_os.Paging.Map.Tags.{Tags, Consistent}
use sparreal_os.Paging.Map.Writes.{after, after-Wrote}
use sparreal_os.Paging.Meta.{TableMeta, FrameAllocator, Machine, table_levels, page_size, EntryLaws}
use sparreal_os.Paging.Translate.Lookup.{
  vacant, mapping, pointer, kind, kind_invalid, lookup, lookup_vacant,
}
use sparreal_os.Paging.Unmap.{Round, advance, descend, clear_entry, skip_entry, unmap_round}
use sparreal_os.Paging.Unmap.Effect.{Effect, Effect-refl}
use sparreal_os.Paging.Unmap.Free.{clear-Effect}
use sparreal_os.Paging.Unmap.Slots.{
  Starts, Starts-vacant, Starts-mapping, slot_end, slot_end-gt, slot_end-le,
}

module _ (T : TableMeta) (A : FrameAllocator) (live : A.State → PhysAddr → Bool) (l frame v e : ℕ)
    (m : Machine T A) (tag : Tags) where
  -- What a round has done. Where it starts at the first address of what it finds, it steps over
  -- unmapped addresses alone, up to the next slot.
  pub data Rounded : Round → Machine T A → Type 0 where
    advanced :
        {v' : ℕ} {m' : Machine T A}
        → v < v'
        → Effect T A live (suc l) v e m m' tag tag
        → (Starts T A m (suc l) frame v
            → (v' < e → v' % 2 ^ shift T (suc l) ≡ 0)
              × ((w : ℕ) → v ≤ w → w < v' → lookup T A m' (suc l) frame w ≡ none))
        → Rounded (advance v') m'
    descended :
        {child next : ℕ}
        → 0 < l
        → v < next
        → next ≤ e
        → (next < e → next % 2 ^ shift T (suc l) ≡ 0)
        → ((w : ℕ) → v ≤ w → w < next → slot T (suc l) w ≡ slot T (suc l) v)
        → kind T l (m.table frame (index T (suc l) v)) ≡ pointer child
        → Rounded (descend child (index T (suc l) v) next) m

module _ (T : TableMeta) (A : FrameAllocator) (live : A.State → PhysAddr → Bool) (flush : Bool)
    (g : GeometryLaws T) (laws : EntryLaws T) (l frame v e : ℕ) (m : Machine T A) (tag : Tags)
    (c : Consistent T A live m tag) (h : suc l ≤ table_levels T) (lt : v < e)
    (t : tag frame ≡ some (suc l, region T (suc l) v))
    (room : e + 2 ^ shift T (suc l) ≤ usize_mod) where
  abbrev Good : Run PagingError (Machine T A) Round → Type 0
  Good = Ensures (Rounded T A live l frame v e m tag) (λ _ _. ⊥)

  abbrev entry : T.Pte
  entry = m.table frame (index T (suc l) v)

  -- A slot whose entry is vacant, from its first address on.
  vacant_slot :
      (m' : Machine T A)
      → kind T l (m'.table frame (index T (suc l) v)) ≡ vacant
      → v % 2 ^ shift T (suc l) ≡ 0
      → (w : ℕ) → v ≤ w
      → w < v + 2 ^ shift T (suc l)
      → lookup T A m' (suc l) frame w ≡ none
  vacant_slot m' k aligned w lo hi = lookup_vacant T A m' l frame w (
      ap (λ i. kind T l (m'.table frame i))
        (index_of_slot T (suc l) v w (slot_of_block T (suc l) v w aligned lo hi).0)
      ∙ k)

  -- The first address of the next slot.
  next_aligned : v % 2 ^ shift T (suc l) ≡ 0 → (v + 2 ^ shift T (suc l)) % 2 ^ shift T (suc l) ≡ 0
  next_aligned aligned =
      add-aligned v (2 ^ shift T (suc l)) (2 ^ shift T (suc l)) aligned
        (mod_self (2 ^ shift T (suc l)))

  skip-Rounded : kind T l entry ≡ vacant → Good (skip_entry T A (suc l) v e m)
  unfolding skip_entry checked
  skip-Rounded k =
      let p = 2 ^ shift T (suc l) in
      let pos = pow-pos (shift T (suc l)) in
      rw
        (
          level_size_lem T g (suc l) (omega arith) h,
          lt→ltb (v + min p (e - v)) usize_mod (omega arith),
        )
        (returns (
          advanced (omega arith) (Effect-refl T A live (suc l) v e c) (λ starts.
            let aligned = Starts-vacant T A m l frame v k starts in
            (
              (λ (more : v + min p (e - v) < e).
                  let whole : v + min p (e - v) ≡ v + p = omega arith in
                  rw whole (next_aligned aligned)),
              (λ w lo hi. vacant_slot m k aligned w lo (omega arith)),
            ))))

  clear_entry-after :
      (size : ℕ)
      → v + size < usize_mod
      → clear_entry T A flush frame (index T (suc l) v) v size m
        ≡ ok
            (advance (v + size))
            (after T A m frame (index T (suc l) v) (T.from_config invalid_config) v flush)
  unfolding clear_entry after store_entry flush_if checked
  clear_entry-after size fits = elim (Bool-cases flush) [
    | inl f ↦ rw (f, lt→ltb _ _ fits)
    | inr f ↦ rw (f, lt→ltb _ _ fits)
  ]

  clear-Rounded :
      (size : ℕ)
      → size ≡ 2 ^ shift T (suc l)
      → kind T l entry ≡ mapping
      → Good (clear_entry T A flush frame (index T (suc l) v) v size m)
  clear-Rounded size sized leaf =
      let i = index T (suc l) v in
      let pte = T.from_config invalid_config in
      let wrote = after-Wrote T A m frame i pte v flush in
      let empty : kind T l pte ≡ vacant =
        kind_invalid T laws l pte
          (laws.valid_lem pte false ∙ laws.from_invalid invalid_config false refl) in
      let blank : kind T l ((after T A m frame i pte v flush).table frame i) ≡ vacant =
        ap (kind T l) wrote.here ∙ empty in
      subst Good (sym (clear_entry-after size (omega (arith, sized)))) (
        returns (
          advanced (omega (arith, sized, pow-pos (shift T (suc l))))
            (clear-Effect T A c t empty wrote leaf e lt)
            (λ starts.
              let aligned = Starts-mapping T A m l frame v leaf starts in
              rw sized (
                (λ more. next_aligned aligned),
                (λ w lo hi. vacant_slot _ blank aligned w lo hi),
              ))))

  descend-Rounded :
      (child : PhysAddr)
      → 0 < l
      → kind T l entry ≡ pointer child
      → Rounded T A live l frame v e m tag
          (descend child (index T (suc l) v) (min (slot_end T (suc l) v) e))
          m
  descend-Rounded child pos points =
      let far = slot_end-gt T (suc l) v in
      descended pos (omega arith) (omega arith)
        (λ (more : min (slot_end T (suc l) v) e < e).
          let whole : min (slot_end T (suc l) v) e ≡ slot_end T (suc l) v = omega arith in
          rw whole (mul-mod_left (v / 2 ^ shift T (suc l) + 1) (2 ^ shift T (suc l))))
        (λ w lo hi. slot_until T (suc l) v w lo (omega arith)) points

  abbrev config : PteConfig
  config = T.to_config entry (ltb 1 (suc l))

  page_kind : config.valid ≡ true → (suc l == 1) ≡ true → kind T l entry ≡ mapping
  unfolding kind
  page_kind valid one = rw (valid, one) (ground arith)

  block_kind : config.valid ≡ true → config.huge ≡ true → kind T l entry ≡ mapping
  unfolding kind
  block_kind valid huge = rw (valid, huge)

  table_kind :
      config.valid ≡ true
      → (suc l == 1) ≡ false
      → config.huge ≡ false
      → kind T l entry ≡ pointer config.paddr
  unfolding kind
  table_kind valid more dir = rw (valid, dir, more)

  vacant_kind : config.valid ≡ false → kind T l entry ≡ vacant
  unfolding kind
  vacant_kind invalid = rw invalid

  block_size : level_size T (suc l) ≡ 2 ^ shift T (suc l)
  block_size = level_size_lem T g (suc l) (omega arith) h

  -- At the lowest level a slot is a page, be the entry marked as huge or not.
  page_slot :
      (suc l == 1) ≡ true
      → (huge : Bool) → (if huge then level_size T (suc l) else page_size T) ≡ 2 ^ shift T (suc l)
  page_slot one true = block_size
  page_slot one false =
      let level : suc l ≡ 1 = ground arith in page_size_lem T ∙ ap (λ k. 2 ^ shift T k) (sym level)

  pub unmap_round-Rounded : Good (unmap_round T A flush (suc l) frame v e m)
  unfolding unmap_round checked
  unmap_round-Rounded =
      let fits : slot_end T (suc l) v < usize_mod = omega (arith, slot_end-le T (suc l) v) in
      rw
        (
          index_of_lem T A g m v (suc l) (omega arith) h,
          read_entry_lem T A g m frame v (suc l) (omega arith) h,
        )
        (elim (Bool-cases config.valid) [
          | inr invalid ↦ rw invalid (skip-Rounded (vacant_kind invalid))
          | inl valid ↦ elim (Bool-cases (suc l == 1)) [
            | inl one ↦
                rw (valid, one) (clear-Rounded _ (page_slot one config.huge) (page_kind valid one))
            | inr more ↦ elim (Bool-cases config.huge) [
              | inl huge ↦
                  rw (valid, more, huge) (clear-Rounded _ block_size (block_kind valid huge))
              | inr dir ↦
                  rw (valid, more, dir, block_size, lt→ltb _ _ fits)
                    (returns
                      (descend-Rounded config.paddr (ground arith) (table_kind valid more dir)))
            ]
          ]
        ])

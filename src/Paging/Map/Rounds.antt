-- ===== src/Paging/Map/Rounds.antt =====
-- One round of the loop of `map_range_recursive`, whichever way it goes.
use native.Mathlib.Nat.{mod_self, one-mul}
use sparreal_os.Prelude.{
  ℕ, suc, ◌+◌, ◌-◌, ◌%◌, ◌≤◌, ◌<◌, ◌≡◌, refl, sym, ap, ◌∙◌, inl, inr, true, false, some, arith, ◌^◌,
  ◌==◌, Bool-cases, ltb, lt→ltb,
}
use sparreal_os.Prelude.Outcome.{Ensures, returns, bind}
use sparreal_os.Paging.Config.{PteConfig, usize_mod}
use sparreal_os.Paging.Frame.Entries.{index_of_lem}
use sparreal_os.Paging.Geometry.{GeometryLaws, level_size}
use sparreal_os.Paging.Geometry.Shifts.{
  shift, level_size_lem, page_size_lem, shift-aligned, add-aligned, aligned_room,
}
use sparreal_os.Paging.Geometry.Slots.{index, region, slot_of_block}
use sparreal_os.Paging.Map.{MapOptions, map_entry, map_round, use_block, block_config, page_config}
use sparreal_os.Paging.Map.Child.{child_table-Below}
use sparreal_os.Paging.Map.Effect.{Maps}
use sparreal_os.Paging.Map.Entry.{Failed, Rounded, descended, map_entry-Rounded}
use sparreal_os.Paging.Map.Next.{next-gt, next-le, next-slot, next-aligned}
use sparreal_os.Paging.Map.Tags.{Tags, Consistent}
use sparreal_os.Paging.Meta.{
  TableMeta, FrameAllocator, Machine, table_levels, page_size, EntryLaws, FrameLaws, Fits,
}
use sparreal_os.Paging.Translate.{phys_of}
use sparreal_os.Paging.Translate.Lookup.{kind_block, kind_page}

module _ (T : TableMeta) (laws : EntryLaws T) (g : GeometryLaws T) (template : PteConfig) (v pa : ℕ)
    (fits : Fits T laws.phys_limit pa) where
  -- A block maps its addresses in order.
  block-Maps :
      (l : ℕ)
      → 0 < l
      → suc l ≤ table_levels T
      → v % 2 ^ shift T (suc l) ≡ 0
      → (w : ℕ) → v ≤ w
      → w < v + 2 ^ shift T (suc l)
      → Maps T template w (pa + (w - v)) (T.from_config (block_config template pa), suc l)
  unfolding phys_of
  block-Maps l pos h aligned w lo hi =
      let c = block_config template pa in
      let dir : ltb 1 (suc l) ≡ true = lt→ltb _ _ (omega arith) in
      record {
        phys =
            rw
              (
                dir,
                laws.from_huge c refl (λ e. refl),
                laws.from_paddr c refl fits,
                level_size_lem T g (suc l) (omega arith) h,
              )
              (ap (λ t. pa + t) (slot_of_block T (suc l) v w aligned lo hi).1);
        base = pa;
        from_template = inr refl;
      }

  -- A page maps its addresses in order.
  page-Maps :
      v % 2 ^ shift T 1 ≡ 0
      → (w : ℕ) → v ≤ w
      → w < v + 2 ^ shift T 1
      → Maps T template w (pa + (w - v)) (T.from_config (page_config template pa), 1)
  unfolding phys_of
  page-Maps aligned w lo hi =
      let c = page_config template pa in
      record {
        phys =
            rw (laws.from_huge c refl (λ e. e), laws.from_paddr c refl fits, page_size_lem T)
              (ap (λ t. pa + t) (slot_of_block T 1 v w aligned lo hi).1);
        base = pa;
        from_template = inl refl;
      }

module _ (T : TableMeta) (A : FrameAllocator) (o : MapOptions) where
  use_block-bounds :
      (level v pa e : ℕ)
      → use_block T A o level v pa e ≡ true
      → (1 < level) × (level_size T level ≤ e - v) × (v % level_size T level ≡ 0)
  unfolding use_block
  use_block-bounds level v pa e b = ground arith

module _ (T : TableMeta) (A : FrameAllocator) (o : MapOptions) (g : GeometryLaws T)
    (laws : EntryLaws T) (fl : FrameLaws T laws.phys_limit A) (l frame v pa e : ℕ) (m : Machine T A)
    (tag : Tags) (c : Consistent T A fl.live m tag) (h : suc l ≤ table_levels T)
    (t : tag frame ≡ some (suc l, region T (suc l) v)) where
  module _ (lt : v < e) (small : e < usize_mod) (av : v % page_size T ≡ 0)
      (ap' : pa % page_size T ≡ 0) (ae : e % page_size T ≡ 0) (small' : pa + (e - v) < usize_mod)
      (limit : pa + (e - v) ≤ laws.phys_limit) where
    block-Rounded :
        use_block T A o (suc l) v pa e ≡ true
        → Ensures
            (Rounded T A o fl.live l frame v pa e m tag)
            (Failed T A o fl.live l frame v pa e m tag)
            (map_entry T A o frame
              (index T (suc l) v)
              (block_config o.pte_template pa)
              v
              pa
              (level_size T (suc l))
              m)
    block-Rounded b =
        let sized = level_size_lem T g (suc l) (omega arith) h in
        let bounds = use_block-bounds T A o (suc l) v pa e b in
        let pos : 0 < l = omega (arith, bounds.0) in
        let fits : Fits T laws.phys_limit pa = (ap', omega arith) in
        let config = block_config o.pte_template pa in
        let whole : level_size T (suc l) % page_size T ≡ 0 =
          ap (λ x. x % page_size T) (sized ∙ sym (one-mul _)) ∙ shift-aligned T 1 (suc l) in
        let aligned : v % 2 ^ shift T (suc l) ≡ 0 = rw (← sized) bounds.2 in
        map_entry-Rounded T A o fl.live g l frame v pa e m tag c h t config (level_size T (suc l))
          sized bounds.2 (add-aligned v (level_size T (suc l)) (page_size T) av whole)
          (omega (arith, bounds.1)) small small'
          (kind_block T l (T.from_config config) pos (laws.from_valid config true refl)
            (laws.from_huge config refl (λ e. refl)))
          (rw sized (block-Maps T laws g o.pte_template v pa fits l pos h aligned))

    page-Rounded :
        l ≡ 0
        → Ensures
            (Rounded T A o fl.live l frame v pa e m tag)
            (Failed T A o fl.live l frame v pa e m tag)
            (map_entry T A o frame
              (index T (suc l) v)
              (page_config o.pte_template pa)
              v
              pa
              (page_size T)
              m)
    page-Rounded one =
        let sized : page_size T ≡ 2 ^ shift T (suc l) = rw one (page_size_lem T) in
        let fits : Fits T laws.phys_limit pa = (ap', omega arith) in
        let config = page_config o.pte_template pa in
        map_entry-Rounded T A o fl.live g l frame v pa e m tag c h t config (page_size T) sized av
          (add-aligned v (page_size T) (page_size T) av (mod_self (page_size T)))
          (aligned_room v e (page_size T) av ae lt) small small'
          (rw one (kind_page T (T.from_config config) (laws.from_valid config false refl)))
          (rw (sized, one)
            (page-Maps T laws g o.pte_template v pa fits (rw (← page_size_lem T) av)))

    pub map_round-Rounded :
        Ensures
          (Rounded T A o fl.live l frame v pa e m tag)
          (Failed T A o fl.live l frame v pa e m tag)
          (map_round T A o (suc l) frame v pa e m)
    unfolding map_round
    map_round-Rounded =
        rw (index_of_lem T A g m v (suc l) (omega arith) h)
          (elim (Bool-cases (use_block T A o (suc l) v pa e)) [
            | inl b ↦ rw b (block-Rounded b)
            | inr nb ↦ elim (Bool-cases (suc l == 1)) [
              | inl one ↦ rw (nb, one) (page-Rounded (ground arith))
              | inr more ↦
                  let pos : 0 < l = ground arith in
                  let s = suc l in
                  rw (nb, more)
                    (bind (child_table-Below T A o g laws fl l frame v pa e m tag c h t pos)
                      (λ child m' below. returns (
                        descended below.tag' pos (next-gt T A o g s v e (omega arith) h lt small)
                          (next-le T A o g s v e (omega arith) h lt small)
                          (next-aligned T A o g s v e (omega arith) h lt small ae)
                          (next-slot T A o g s v e (omega arith) h lt small) below.effect
                          below.tagged below.points))
                      (λ error m' failed. failed))
            ]
          ])

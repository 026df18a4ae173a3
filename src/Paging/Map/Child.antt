-- ===== src/Paging/Map/Child.antt =====
-- One round of the loop where it goes down: to the table that the entry points at, or to a new one.
use sparreal_os.Prelude.{
  ℕ, suc, ◌≤◌, ◌<◌, ◌≡◌, refl, sym, ap, ◌∙◌, inl, inr, ◌≢◌, true, some, arith, ==_self, Bool-cases,
  subst, Option-cases,
}
use sparreal_os.Prelude.Outcome.{Ensures, returns, fails}
use sparreal_os.Paging.Config.{PhysAddr, PteConfig}
use sparreal_os.Paging.Frame.{write_entry, store_entry, new_frame, zeroed}
use sparreal_os.Paging.Frame.Entries.{read_entry_lem}
use sparreal_os.Paging.Geometry.{GeometryLaws}
use sparreal_os.Paging.Geometry.Slots.{slot, index, region, slot_at, index-lt, slot-eq-slot_at}
use sparreal_os.Paging.Map.{MapOptions, child_table, table_config}
use sparreal_os.Paging.Map.Effect.{Effect, Effect-refl}
use sparreal_os.Paging.Map.Entry.{Failed}
use sparreal_os.Paging.Map.Links.{
  Linked, Linked-Consistent, Linked-Agree, tag_new, tag_new_old, tag_new_self, ne_new,
}
use sparreal_os.Paging.Map.Tags.{Tags, Consistent, lookup-Agree}
use sparreal_os.Paging.Map.Writes.{tag_eq}
use sparreal_os.Paging.Meta.{
  TableMeta, FrameAllocator, Machine, table_levels, EntryLaws, FrameLaws, Fits,
}
use sparreal_os.Paging.Translate.Lookup.{vacant, pointer, kind, kind_dir, kind_invalid}
use native.Mathlib.Nat.{lt_irrefl}

module _ (T : TableMeta) (laws : EntryLaws T) where
  -- The entry that the code writes for a new table is a pointer to it.
  pub kind_table :
      (template : PteConfig) (l q : ℕ)
      → 0 < l
      → Fits T laws.phys_limit q
      → kind T l (T.from_config (table_config template q)) ≡ pointer q
  kind_table template l q pos fits =
      let c = table_config template q in
      kind_dir T l (T.from_config c) pos (laws.from_valid c true refl)
        (laws.from_huge c refl (λ e. refl))
      ∙ ap pointer (laws.from_paddr c refl fits)

module _ (T : TableMeta) (A : FrameAllocator) (o : MapOptions) (g : GeometryLaws T)
    (laws : EntryLaws T) (fl : FrameLaws T laws.phys_limit A) (l frame v pa e : ℕ) (m : Machine T A)
    (tag : Tags) (c : Consistent T A fl.live m tag) (h : suc l ≤ table_levels T)
    (t : tag frame ≡ some (suc l, region T (suc l) v)) (pos : 0 < l) where
  -- The table that the entry of `v` points at, after the round.
  pub record Below (child : PhysAddr) (m' : Machine T A) : Type 0 where
    pub tag' : Tags
    pub effect : Effect T A fl.live (suc l) v e m m' tag tag'
    pub tagged : tag' child ≡ some (l, slot T (suc l) v)
    pub points : kind T l (m'.table frame (index T (suc l) v)) ≡ pointer child

  Linked-Below :
      (q : ℕ) (m' : Machine T A)
      → Fits T laws.phys_limit q
      → kind T l (m.table frame (index T (suc l) v)) ≡ vacant
      → Linked T A laws fl.live m m' frame
          (index T (suc l) v)
          q
          (T.from_config (table_config o.pte_template q))
      → Below q m'
  Linked-Below q m' fits before w =
      let points = kind_table T laws o.pte_template l q pos fits in
      let tag' = tag_new tag q (l, slot_at T (suc l) (region T (suc l) v) (index T (suc l) v)) in
      record {
        tag' = tag';
        effect = record {
          tags = λ p t'. tag_new_old T A laws fl.live c w t _ p t';
          consistent = Linked-Consistent T A laws fl.live c w t points;
          above = λ p k r j t' above.
              w.elsewhere p j (ne_new T A laws fl.live c w t p t') (λ (ep, _).
                lt_irrefl (suc l)
                  (subst (λ x. suc l < x) (tag_eq (sym t' ∙ ap tag ep ∙ t)).0 above));
          others = λ a out k p h' t'.
              lookup-Agree T A m m' tag c a (Linked-Agree T A laws fl.live c w t points before a) k
                p h' t';
        };
        tagged =
            tag_new_self T A laws fl.live c w t _
            ∙ ap (λ x. some (l, x)) (sym (slot-eq-slot_at T (suc l) v));
        points = ap (kind T l) w.here ∙ points;
      }

  unfoldable new_child : (q : ℕ) (state : A.State) → Machine T A
  new_child q state =
      write_entry T A frame (index T (suc l) v) (T.from_config (table_config o.pte_template q))
        (zeroed T A q state m)

  new_child-Linked :
      (q : ℕ) (state : A.State)
      → A.alloc_frame m.frames ≡ some (q, state)
      → Linked T A laws fl.live m
          (new_child q state)
          frame
          (index T (suc l) v)
          q
          (T.from_config (table_config o.pte_template q))
  unfolding new_child write_entry zeroed
  new_child-Linked q state got =
      let fresh = fl.alloc_fresh m.frames got in
      let other : frame ≢ q = λ same. cc (c.owned frame t, ap (fl.live m.frames) same, fresh) in
      record {
        here = rw (==_self frame, ==_self (index T (suc l) v));
        cleared = λ j. ground arith;
        elsewhere = λ p j new entry. ground arith;
        fresh = fresh;
        frames = fl.alloc_live m.frames got;
      }

  pub child_table-Below :
      Ensures Below
        (Failed T A o fl.live l frame v pa e m tag)
        (child_table T A o frame (index T (suc l) v) m)
  unfolding child_table store_entry new_frame new_child
  child_table-Below =
      let pte = m.table frame (index T (suc l) v) in
      let unchanged = Effect-refl T A fl.live (suc l) v e c in
      rw (read_entry_lem T A g m frame v (suc l) (omega arith) h)
        (elim (Bool-cases (T.to_config pte true).valid) [
          | inl valid ↦ elim (Bool-cases (T.to_config pte true).huge) [
            | inl huge ↦ rw (valid, huge) (fails (tag, unchanged))
            | inr dir ↦
                let points = kind_dir T l pte pos valid dir in
                rw (valid, dir)
                  (returns (record {
                    tag' = tag;
                    effect = unchanged;
                    tagged =
                        c.child frame l _ _ t (index-lt T (suc l) v) points
                        ∙ ap (λ x. some (l, x)) (sym (slot-eq-slot_at T (suc l) v));
                    points = points;
                  }))
          ]
          | inr invalid ↦ elim (Option-cases (A.alloc_frame m.frames)) [
            | inl full ↦ rw (invalid, full, new_frame) (fails (tag, unchanged))
            | inr ((q, state), got) ↦
                let before = kind_invalid T laws l pte (laws.valid_lem pte true ∙ invalid) in
                rw (invalid, got, new_frame)
                  (returns (
                    Linked-Below q (new_child q state) (fl.alloc_fits m.frames got) before
                      (new_child-Linked q state got)))
          ]
        ])

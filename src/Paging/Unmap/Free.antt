-- ===== src/Paging/Unmap/Free.antt =====
-- What it changes to clear an entry that maps a page or a block, and to clear an entry that points
-- at an empty table and free that table.
use native.Mathlib.Nat.{lt_irrefl, le_trans, mul-div_cancel, mod-eq_of_lt, mul-add-mod_self_right}
use sparreal_os.Prelude.{
  ℕ, zero, suc, ◌+◌, ◌*◌, ◌/◌, ◌%◌, ◌^◌, ◌≤◌, ◌<◌, ◌≡◌, refl, sym, ap, ◌∙◌, ◌⊎◌, inl, inr, ◌≢◌,
  Bool, false, none, some, ◌==◌, ==_false, if◌then◌else◌, arith, subst,
}
use sparreal_os.Paging.Config.{PhysAddr}
use sparreal_os.Paging.Geometry.{GeometryLaws, level_index_bits}
use sparreal_os.Paging.Geometry.Slots.{slot, index, region, slot_at, index-lt, slot-eq-slot_at}
use sparreal_os.Paging.Map.Tags.{Tags, Consistent}
use sparreal_os.Paging.Map.Writes.{entry-cases, tag_eq, Wrote, Wrote-Consistent}
use sparreal_os.Paging.Meta.{TableMeta, FrameAllocator, Machine, table_levels, EntryLaws, FrameLaws}
use sparreal_os.Paging.Translate.Lookup.{
  vacant, mapping, pointer, kind, kind_invalid, lookup, lookup_vacant, lookup_mapping,
  lookup_pointer,
}
use sparreal_os.Paging.Unmap.Effect.{Effect, Unique, same, shared, Near, Spared-Near}

eq-cases : (p q : ℕ) → (p ≡ q) ⊎ (p ≢ q)
eq-cases p q = ground arith

-- The tags without a frame.
pub tag_without : Tags → PhysAddr → Tags
tag_without tag q p = if p == q then none else tag p

without_old : (tag : Tags) (q p : ℕ) {x : ℕ × ℕ} → tag_without tag q p ≡ some x → tag p ≡ some x
unfolding tag_without
without_old tag q p t = ground arith

without_ne : (tag : Tags) (q p : ℕ) {x : ℕ × ℕ} → tag_without tag q p ≡ some x → p ≢ q
unfolding tag_without
without_ne tag q p t = ground arith

without_other :
    (tag : Tags) (q p : ℕ) {x : ℕ × ℕ} → tag p ≡ some x → p ≢ q → tag_without tag q p ≡ some x
unfolding tag_without
without_other tag q p t ne = rw (==_false p q ne) t

vacant_pointer : {q : PhysAddr} → ¬ (vacant ≡ pointer q)
vacant_pointer k = ground arith

module _ (T : TableMeta) (tag : Tags) (frame v l : ℕ)
    (t : tag frame ≡ some (suc l, region T (suc l) v)) where
  -- A higher table is another frame.
  higher : (p k r : ℕ) → tag p ≡ some (k, r) → suc l < k → p ≢ frame
  higher p k r t' above ep =
      lt_irrefl (suc l) (subst (λ x. suc l < x) (tag_eq (sym t' ∙ ap tag ep ∙ t)).0 above)

  -- The entry that is cleared, as another address comes upon it.
  module _ (p k a : ℕ) (t' : tag p ≡ some (suc k, region T (suc k) a)) (ep : p ≡ frame)
      (ej : index T (suc k) a ≡ index T (suc l) v) where
    same_place : (suc k ≡ suc l) × (region T (suc k) a ≡ region T (suc l) v)
    same_place = tag_eq (sym t' ∙ ap tag ep ∙ t)

    same_level : k ≡ l
    same_level = omega (arith, same_place.0)

    same_slot : slot T (suc l) v ≡ slot T (suc k) a
    same_slot =
        let level = same_level in
        let place = same_place.1 in cc (slot-eq-slot_at T (suc k) a, slot-eq-slot_at T (suc l) v)

module _ (T : TableMeta) (A : FrameAllocator) {live : A.State → PhysAddr → Bool}
    {m m' : Machine T A} {tag : Tags} {frame v l : ℕ} {e : T.Pte} (c : Consistent T A live m tag)
    (t : tag frame ≡ some (suc l, region T (suc l) v)) (empty : kind T l e ≡ vacant) where
  -- What an address finds where a page or a block has been cleared.
  clear-Near :
      Wrote T A m m' frame (index T (suc l) v) e
      → kind T l (m.table frame (index T (suc l) v)) ≡ mapping
      → (hi : ℕ) → v < hi
      → (a : ℕ) → Near T A m m' tag c v hi a
  clear-Near w leaf hi inside a p k t' =
      elim (entry-cases p (index T (suc k) a) frame (index T (suc l) v)) [
        | inr other ↦ inl (w.elsewhere p (index T (suc k) a) other)
        | inl (ep, ej) ↦
            let level : k ≡ l = same_level T tag frame v l t p k a t' ep ej in
            let gone : lookup T A m' (suc k) p a ≡ none =
              lookup_vacant T A m' k p a (cc (w.here, empty)) in
            let was : lookup T A m (suc k) p a ≡ some (m.table p (index T (suc k) a), suc k) =
              lookup_mapping T A m k p a (cc leaf) in
            let slots : slot T (suc l) v ≡ slot T (suc k) a =
              same_slot T tag frame v l t p k a t' ep ej in
            let slots' : slot T (suc k) v ≡ slot T (suc k) a = cc in
            inr (
              shared v (suc k) (m.table p (index T (suc k) a)) gone was (omega arith) inside slots')
      ]

  -- Clearing a page or a block.
  pub clear-Effect :
      Wrote T A m m' frame (index T (suc l) v) e
      → kind T l (m.table frame (index T (suc l) v)) ≡ mapping
      → (hi : ℕ) → v < hi
      → Effect T A live (suc l) v hi m m' tag tag
  clear-Effect w leaf hi inside = record {
    fewer = λ p t'. t';
    stays = λ p k r t' h. t';
    consistent = Wrote-Consistent T A c w t (λ q k. cc (empty, k));
    above =
        λ p k r j t' above. w.elsewhere p j (λ (ep, _). higher T tag frame v l t p k r t' above ep);
    others = λ a out k p h h' t'.
        Spared-Near T A m m' tag c v hi a (clear-Near w leaf hi inside a) k p h' t';
  }

module _ (T : TableMeta) (A : FrameAllocator) (laws : EntryLaws T)
    (fl : FrameLaws T laws.phys_limit A) where
  -- `m'` is `m` with one entry of `frame` written and the frame `q` handed back.
  pub record Unlinked (m m' : Machine T A) (frame i q : ℕ) (e : T.Pte) : Type 0 where
    pub here : m'.table frame i ≡ e
    pub elsewhere : (p j : ℕ) → ¬ ((p ≡ frame) × (j ≡ i)) → m'.table p j ≡ m.table p j
    pub frames : m'.frames ≡ A.dealloc_frame q m.frames

  -- Every entry of a table is not valid.
  abbrev pub Blank : Machine T A → PhysAddr → Type 0
  Blank m frame = (j : ℕ) → j < T.entries → T.valid (m.table frame j) ≡ false

  -- A blank table maps nothing.
  pub lookup_blank :
      GeometryLaws T
      → (m : Machine T A) (l q a : ℕ) → l ≤ table_levels T
      → Blank m q
      → lookup T A m l q a ≡ none
  unfolding lookup
  lookup_blank g m zero q a h blank = refl
  lookup_blank g m (suc l) q a h blank = lookup_vacant T A m l q a (
      kind_invalid T laws l _ (
        blank (index T (suc l) a)
          (le_trans (index-lt T (suc l) a) (g.indexed (suc l) (omega arith) h))))

  -- Two numbers in one base.
  same_digits : (b r r' i i' : ℕ) → i < b → i' < b → r * b + i ≡ r' * b + i' → (r ≡ r') × (i ≡ i')
  same_digits b r r' i i' h h' e =
      let digit : i ≡ i' =
        sym (mod-eq_of_lt h)
        ∙ sym (mul-add-mod_self_right r b i)
        ∙ ap (λ t. t % b) e
        ∙ mul-add-mod_self_right r' b i'
        ∙ mod-eq_of_lt h' in
      let multiple : r * b ≡ r' * b = omega arith in
      (
        sym (mul-div_cancel r (omega arith))
            ∙ ap (λ t. t / b) multiple
            ∙ mul-div_cancel r' (omega arith),
        digit,
      )

  module _ (g : GeometryLaws T) (m m' : Machine T A) (tag : Tags) (frame v l q : ℕ) (e : T.Pte)
      (c : Consistent T A fl.live m tag) (u : Unique tag)
      (t : tag frame ≡ some (suc l, region T (suc l) v)) (deep : suc l ≤ table_levels T)
      (empty : kind T l e ≡ vacant) (w : Unlinked m m' frame (index T (suc l) v) q e)
      (points : kind T l (m.table frame (index T (suc l) v)) ≡ pointer q) (blank : Blank m q) where
    child_place : tag q ≡ some (l, slot_at T (suc l) (region T (suc l) v) (index T (suc l) v))
    child_place = c.child frame l _ _ t (index-lt T (suc l) v) points

    -- Only the entry that is cleared points at the table that is freed.
    only_entry :
        (p k r j : ℕ)
        → tag p ≡ some (suc k, r)
        → j < 2 ^ level_index_bits T (suc k)
        → kind T k (m.table p j) ≡ pointer q
        → (p ≡ frame) × (j ≡ index T (suc l) v)
    only_entry p k r j t' h k' =
        let place = tag_eq (sym (c.child p k r j t' h k') ∙ child_place) in
        let level : k ≡ l = place.0 in
        let h' : j < 2 ^ level_index_bits T (suc l) = rw (← level) h in
        let digits =
          same_digits (2 ^ level_index_bits T (suc l)) r (region T (suc l) v) j (index T (suc l) v)
            h' (index-lt T (suc l) v) (ap (λ x. slot_at T (suc x) r j) (sym level) ∙ place.1) in
        (u p frame _ (cc (t', level, digits.0)) t, digits.1)

    free-Near : (hi a : ℕ) → Near T A m m' tag c v hi a
    free-Near hi a p k t' = elim (entry-cases p (index T (suc k) a) frame (index T (suc l) v)) [
      | inr other ↦ inl (w.elsewhere p (index T (suc k) a) other)
      | inl (ep, ej) ↦
          let level : k ≡ l = same_level T tag frame v l t p k a t' ep ej in
          let gone : lookup T A m' (suc k) p a ≡ none =
            lookup_vacant T A m' k p a (cc (w.here, empty)) in
          let was : lookup T A m (suc k) p a ≡ lookup T A m k q a =
            lookup_pointer T A m k p a (cc points) in
          inr (same (gone ∙ sym (was ∙ lookup_blank g m k q a (omega arith) blank)))
    ]

    -- Clearing an entry that points at a blank table, and freeing that table.
    pub free-Effect : (hi : ℕ) → Effect T A fl.live (suc l) v hi m m' tag (tag_without tag q)
    free-Effect hi = record {
      fewer = λ p t'. without_old tag q p t';
      stays = λ p k r t' h.
          without_other tag q p t'
            (λ ep. lt_irrefl l (omega (arith, h, (tag_eq (sym t' ∙ ap tag ep ∙ child_place)).0)));
      consistent = record {
        child = λ p k r j {q = s} t' h k'. elim (entry-cases p j frame (index T (suc l) v)) [
          | inl (ep, ej) ↦
              let level : k ≡ l =
                omega (arith, (tag_eq (sym (without_old tag q p t') ∙ ap tag ep ∙ t)).0) in
              absurd (vacant_pointer {q = s} (cc (w.here, empty, k')))
          | inr other ↦
              let k'' : kind T k (m.table p j) ≡ pointer s =
                ap (kind T k) (sym (w.elsewhere p j other)) ∙ k' in
              without_other tag q s (c.child p k r j (without_old tag q p t') h k'')
                (λ es. other (only_entry p k r j (without_old tag q p t') h (cc (k'', es))))
        ];
        owned = λ p t'.
            rw (w.frames, fl.dealloc_live m.frames q p, ==_false p q (without_ne tag q p t'))
              (c.owned p (without_old tag q p t'));
      };
      above = λ p k r j t' above.
          w.elsewhere p j (λ (ep, _). higher T tag frame v l t p k r t' above ep);
      others = λ a out k p h h' t'. Spared-Near T A m m' tag c v hi a (free-Near hi a) k p h' t';
    }

-- ===== src/Paging/Map/Links.antt =====
-- The link of a new table: the memory stays consistent, and no address sees it, since the entry
-- mapped nothing before and the cleared table maps nothing after.
use sparreal_os.Prelude.{
  ℕ, suc, ◌≡◌, refl, sym, ap, ◌∙◌, ◌⊎◌, inl, inr, ◌≢◌, Bool, false, some, ◌||◌, ◌==◌, ==_self,
  ==_false, if◌then◌else◌, arith,
}
use sparreal_os.Paging.Config.{PhysAddr}
use sparreal_os.Paging.Geometry.Slots.{index, slot_at}
use sparreal_os.Paging.Map.Tags.{Tags, Consistent, Agree}
use sparreal_os.Paging.Map.Writes.{entry-cases, tag_eq}
use sparreal_os.Paging.Meta.{TableMeta, FrameAllocator, Machine, EntryLaws}
use sparreal_os.Paging.Translate.Lookup.{
  vacant, pointer, kind, kind_zero, lookup_vacant, lookup_pointer, lookup_cleared,
}

eq-cases : (p q : ℕ) → (p ≡ q) ⊎ (p ≢ q)
eq-cases p q = ground arith

-- The tags with one more frame.
pub tag_new : Tags → PhysAddr → ℕ × ℕ → Tags
tag_new tag q x p = if p == q then some x else tag p

module _ (T : TableMeta) (A : FrameAllocator) (laws : EntryLaws T)
    (live : A.State → PhysAddr → Bool) where
  -- `m'` is `m` with a cleared frame `q`, which was not in use, and an entry of `frame` written.
  pub record Linked (m m' : Machine T A) (frame i q : ℕ) (e : T.Pte) : Type 0 where
    pub here : m'.table frame i ≡ e
    pub cleared : (j : ℕ) → m'.table q j ≡ T.zero_entry
    pub elsewhere : (p j : ℕ) → p ≢ q → ¬ ((p ≡ frame) × (j ≡ i)) → m'.table p j ≡ m.table p j
    pub fresh : live m.frames q ≡ false
    pub frames : (p : ℕ) → live m'.frames p ≡ ((p == q) || live m.frames p)

  module _ {m m' : Machine T A} {frame i q l r : ℕ} {e : T.Pte} {tag : Tags}
      (c : Consistent T A live m tag) (w : Linked m m' frame i q e)
      (t : tag frame ≡ some (suc l, r)) where
    pub ne_new : (p : ℕ) {x : ℕ × ℕ} → tag p ≡ some x → p ≢ q
    ne_new p t' same = cc (c.owned p t', ap (live m.frames) same, w.fresh)

    pub tag_new_old : (y : ℕ × ℕ) (p : ℕ) {x : ℕ × ℕ} → tag p ≡ some x → tag_new tag q y p ≡ some x
    unfolding tag_new
    tag_new_old y p t' = rw (==_false p q (ne_new p t')) t'

    pub tag_new_self : (y : ℕ × ℕ) → tag_new tag q y q ≡ some y
    unfolding tag_new
    tag_new_self y = rw (==_self q)

    old_tag : (y : ℕ × ℕ) (p : ℕ) {x : ℕ × ℕ} → p ≢ q → tag_new tag q y p ≡ some x → tag p ≡ some x
    unfolding tag_new
    old_tag y p old t' = rw (==_false p q old) at t'

    pub Linked-Consistent :
        kind T l e ≡ pointer q → Consistent T A live m' (tag_new tag q (l, slot_at T (suc l) r i))
    Linked-Consistent points =
        let new_tag : ℕ × ℕ = (l, slot_at T (suc l) r i) in
        record {
          child = λ p k r' j {q = s} t' h k'. elim (eq-cases p q) [
            | inl new ↦
                cc
                  (kind_zero T laws k, ap (kind T k) (ap (λ x. m'.table x j) new ∙ w.cleared j), k')
            | inr old ↦ elim (entry-cases p j frame i) [
              | inl (ep, ej) ↦
                  let same : (suc k ≡ suc l) × (r' ≡ r) =
                    tag_eq (sym (old_tag new_tag p old t') ∙ ap tag ep ∙ t) in
                  let level : k ≡ l = omega arith in
                  let target : s ≡ q = cc (w.here, points, k') in cc (tag_new_self new_tag)
              | inr other ↦ tag_new_old new_tag s (
                  c.child p k r' j (old_tag new_tag p old t') h
                    (ap (kind T k) (sym (w.elsewhere p j old other)) ∙ k'))
            ]
          ];
          owned = λ p t'. elim (eq-cases p q) [
            | inl new ↦ rw (w.frames p, new, ==_self q) refl
            | inr old ↦ rw (w.frames p, ==_false p q old) (c.owned p (old_tag new_tag p old t'))
          ];
        }

    pub Linked-Agree :
        kind T l e ≡ pointer q
        → kind T l (m.table frame i) ≡ vacant
        → (a : ℕ) → Agree T A m m' tag c a
    Linked-Agree points before a p k t' = elim (entry-cases p (index T (suc k) a) frame i) [
      | inl (ep, ej) ↦
          let level : k ≡ l = omega (arith, (tag_eq (sym t' ∙ ap tag ep ∙ t)).0) in
          inr (
            lookup_pointer T A m' k p a (cc (w.here, points))
            ∙ lookup_cleared T A laws m' k q a w.cleared
            ∙ sym (lookup_vacant T A m k p a (cc before)))
      | inr other ↦ inl (w.elsewhere p (index T (suc k) a) (ne_new p t') other)
    ]

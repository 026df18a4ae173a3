-- ===== src/Paging/Map/Tags.antt =====
-- Where the frames of a page table stand. A tag gives a frame its level and the region of the
-- address space that it covers; in a consistent memory an entry points only at the frame of its own
-- slot, so that a write to one slot cannot be seen through any other.
use sparreal_os.Prelude.{
  ℕ, zero, suc, ◌≤◌, ◌<◌, ◌≡◌, refl, ◌∙◌, ◌⊎◌, inl, inr, Bool, true, Option, some, arith, ◌^◌,
}
use sparreal_os.Paging.Config.{PhysAddr}
use sparreal_os.Paging.Geometry.{level_index_bits}
use sparreal_os.Paging.Geometry.Slots.{
  index, region, slot_at, index-lt, slot-eq-slot_at, region-eq-slot,
}
use sparreal_os.Paging.Meta.{TableMeta, FrameAllocator, Machine, table_levels}
use sparreal_os.Paging.Translate.Lookup.{pointer, kind, lookup, lookup_same}

-- The level of a frame and its region.
abbrev pub Tags : Type 0
Tags = PhysAddr → Option (ℕ × ℕ)

module _ (T : TableMeta) (A : FrameAllocator) (live : A.State → PhysAddr → Bool) where
  pub record Consistent (m : Machine T A) (tag : Tags) : Type 0 where
    pub child :
        (p l r i : ℕ) {q : ℕ}
        → tag p ≡ some (suc l, r)
        → i < 2 ^ level_index_bits T (suc l)
        → kind T l (m.table p i) ≡ pointer q
        → tag q ≡ some (l, slot_at T (suc l) r i)
    pub owned : (p : ℕ) {x : ℕ × ℕ} → tag p ≡ some x → live m.frames p ≡ true

module _ (T : TableMeta) (A : FrameAllocator) {live : A.State → PhysAddr → Bool} (m : Machine T A)
    (tag : Tags) (c : Consistent T A live m tag) where
  -- The table that the walk of an address goes to covers the region of the address.
  pub child_tag :
      (p l w : ℕ) {q : ℕ}
      → 0 < l
      → l < table_levels T
      → tag p ≡ some (suc l, region T (suc l) w)
      → kind T l (m.table p (index T (suc l) w)) ≡ pointer q
      → tag q ≡ some (l, region T l w)
  child_tag p l w pos h t k =
      c.child p l _ _ t (index-lt T (suc l) w) k
      ∙ rw (region-eq-slot T l w pos h, slot-eq-slot_at T (suc l) w)

module _ (T : TableMeta) (A : FrameAllocator) {live : A.State → PhysAddr → Bool}
    (m m' : Machine T A) (tag : Tags) (c : Consistent T A live m tag) where
  -- The walk of `w` reaches `m` and `m'` alike: the tables on its way have the same entry, or give
  -- the same answer.
  abbrev pub Agree : ℕ → Type 0
  Agree w =
      (p l : ℕ)
      → tag p ≡ some (suc l, region T (suc l) w)
      → (m'.table p (index T (suc l) w) ≡ m.table p (index T (suc l) w))
        ⊎ (lookup T A m' (suc l) p w ≡ lookup T A m (suc l) p w)

  pub lookup-Agree :
      (w : ℕ)
      → Agree w
      → (l p : ℕ) → l ≤ table_levels T
      → tag p ≡ some (l, region T l w)
      → lookup T A m' l p w ≡ lookup T A m l p w
  unfolding lookup
  lookup-Agree w a zero p h t = refl
  lookup-Agree w a (suc l) p h t = elim (a p l t) [
    | inr same ↦ same
    | inl same ↦ lookup_same T A m m' l p w same (below l (lookup-Agree w a l) p h t)
  ]
    where
      below :
          (l : ℕ)
          → ((p : ℕ)
              → l ≤ table_levels T
              → tag p ≡ some (l, region T l w)
              → lookup T A m' l p w ≡ lookup T A m l p w)
          → (p : ℕ) → suc l ≤ table_levels T
          → tag p ≡ some (suc l, region T (suc l) w)
          → (q : ℕ) → kind T l (m.table p (index T (suc l) w)) ≡ pointer q
          → lookup T A m' l q w ≡ lookup T A m l q w
      below zero ih p h t q k = refl
      below (suc l) ih p h t q k =
          ih q (omega arith) (child_tag T A m tag c p (suc l) w (omega arith) h t k)

-- ===== src/Paging/Unmap/Effect.antt =====
-- What unmapping a range may change. An address outside the range keeps its meaning, unless one
-- entry maps it together with an address of the range. Tables of the level of the loop and above
-- stay; those below may be freed.
use sparreal_os.Prelude.{
  ℕ, zero, suc, ◌≤◌, ◌<◌, ◌≡◌, refl, sym, ap, ◌∙◌, ◌⊎◌, inl, inr, Bool, none, some, arith,
}
use sparreal_os.Paging.Config.{PhysAddr}
use sparreal_os.Paging.Geometry.Slots.{slot, index, region}
use sparreal_os.Paging.Map.Tags.{Tags, Consistent, child_tag}
use sparreal_os.Paging.Meta.{TableMeta, FrameAllocator, Machine, table_levels}
use sparreal_os.Paging.Translate.Lookup.{
  Kind-cases, pointer, kind, lookup, lookup_vacant, lookup_mapping, lookup_pointer,
}

-- No two frames stand in one place.
abbrev pub Unique : Tags → Type 0
Unique tag = (p q : ℕ) (x : ℕ × ℕ) → tag p ≡ some x → tag q ≡ some x → p ≡ q

module _ (T : TableMeta) (A : FrameAllocator) where
  -- What happens to the entry that maps `w`, from the table `p` of level `k`, when addresses from
  -- `lo` up to `hi` are unmapped.
  pub data Spared (lo hi : ℕ) (m m' : Machine T A) (k p w : ℕ) : Type 0 where
    same : lookup T A m' k p w ≡ lookup T A m k p w → Spared lo hi m m' k p w
    shared :
        (u l : ℕ) (e : T.Pte)
        → lookup T A m' k p w ≡ none
        → lookup T A m k p w ≡ some (e, l)
        → lo ≤ u
        → u < hi
        → slot T l u ≡ slot T l w
        → Spared lo hi m m' k p w

  pub Spared-trans :
      {lo hi : ℕ} {m m' m'' : Machine T A} {k p w : ℕ}
      → Spared lo hi m m' k p w
      → Spared lo hi m' m'' k p w
      → Spared lo hi m m'' k p w
  Spared-trans (same a) (same b) = same (b ∙ a)
  Spared-trans (same a) (shared u l e gone was below above s) =
      shared u l e gone (sym a ∙ was) below above s
  Spared-trans (shared u l e gone was below above s) (same b) =
      shared u l e (b ∙ gone) was below above s
  Spared-trans (shared u l e gone was below above s) (shared u' l' e' gone' was' below' above' s') =
      shared u l e gone' was below above s

  pub Spared-widen :
      {lo hi lo' hi' : ℕ} {m m' : Machine T A} {k p w : ℕ}
      → lo' ≤ lo
      → hi ≤ hi'
      → Spared lo hi m m' k p w
      → Spared lo' hi' m m' k p w
  Spared-widen a b (same s) = same s
  Spared-widen a b (shared u l e gone was below above s) =
      shared u l e gone was (omega arith) (omega arith) s

  -- The same at another table, where both answers are the same.
  Spared-at :
      {lo hi : ℕ} {m m' : Machine T A} {k p k' p' w : ℕ}
      → lookup T A m k' p' w ≡ lookup T A m k p w
      → lookup T A m' k' p' w ≡ lookup T A m' k p w
      → Spared lo hi m m' k p w
      → Spared lo hi m m' k' p' w
  Spared-at a b (same s) = same (b ∙ s ∙ sym a)
  Spared-at a b (shared u l e gone was below above s) =
      shared u l e (b ∙ gone) (a ∙ was) below above s

  -- An address that was unmapped stays so.
  pub Spared-none :
      {lo hi : ℕ} {m m' : Machine T A} {k p w : ℕ}
      → Spared lo hi m m' k p w
      → lookup T A m k p w ≡ none
      → lookup T A m' k p w ≡ none
  Spared-none (same s) h = s ∙ h
  Spared-none (shared u l e gone was below above s) h = gone

module _ (T : TableMeta) (A : FrameAllocator) {live : A.State → PhysAddr → Bool}
    (m m' : Machine T A) (tag : Tags) (c : Consistent T A live m tag) (lo hi : ℕ) where
  -- The tables on the way of `w` have the same entry for it, or spare it.
  abbrev pub Near : ℕ → Type 0
  Near w =
      (p l : ℕ)
      → tag p ≡ some (suc l, region T (suc l) w)
      → (m'.table p (index T (suc l) w) ≡ m.table p (index T (suc l) w))
        ⊎ Spared T A lo hi m m' (suc l) p w

  pub Spared-Near :
      (w : ℕ)
      → Near w
      → (k p : ℕ) → k ≤ table_levels T
      → tag p ≡ some (k, region T k w)
      → Spared T A lo hi m m' k p w
  unfolding lookup
  Spared-Near w near zero p h t = same refl
  Spared-Near w near (suc l) p h t = elim (near p l t) [
    | inr spared ↦ spared
    | inl eq ↦ elim (Kind-cases (kind T l (m.table p (index T (suc l) w)))) [
      | inl k ↦
          same
            (lookup_vacant T A m' l p w (ap (kind T l) eq ∙ k) ∙ sym (lookup_vacant T A m l p w k))
      | inr (inl k) ↦ same (
          lookup_mapping T A m' l p w (ap (kind T l) eq ∙ k)
          ∙ ap (λ e. some (e, suc l)) eq
          ∙ sym (lookup_mapping T A m l p w k))
      | inr (inr (q, k)) ↦
          Spared-at T A (lookup_pointer T A m l p w k)
            (lookup_pointer T A m' l p w (ap (kind T l) eq ∙ k))
            (below l (Spared-Near w near l) p h t q k)
    ]
  ]
    where
      below :
          (l : ℕ)
          → ((p : ℕ)
              → l ≤ table_levels T
              → tag p ≡ some (l, region T l w)
              → Spared T A lo hi m m' l p w)
          → (p : ℕ) → suc l ≤ table_levels T
          → tag p ≡ some (suc l, region T (suc l) w)
          → (q : ℕ) → kind T l (m.table p (index T (suc l) w)) ≡ pointer q
          → Spared T A lo hi m m' l q w
      below zero ih p h t q k = same refl
      below (suc l) ih p h t q k =
          ih q (omega arith) (child_tag T A m tag c p (suc l) w (omega arith) h t k)

module _ (T : TableMeta) (A : FrameAllocator) (live : A.State → PhysAddr → Bool) where
  pub record Effect (level lo hi : ℕ) (m m' : Machine T A) (tag tag' : Tags) : Type 0 where
    pub fewer : (p : ℕ) {x : ℕ × ℕ} → tag' p ≡ some x → tag p ≡ some x
    pub stays : (p k r : ℕ) → tag p ≡ some (k, r) → level ≤ k → tag' p ≡ some (k, r)
    pub consistent : Consistent T A live m' tag'
    pub above : (p k r j : ℕ) → tag p ≡ some (k, r) → level < k → m'.table p j ≡ m.table p j
    pub others :
        (w : ℕ)
        → ¬ ((lo ≤ w) × (w < hi))
        → (k p : ℕ) → level ≤ k
        → k ≤ table_levels T
        → tag p ≡ some (k, region T k w)
        → Spared T A lo hi m m' k p w

  pub Effect-refl :
      (level lo hi : ℕ) {m : Machine T A} {tag : Tags}
      → Consistent T A live m tag
      → Effect level lo hi m m tag tag
  Effect-refl level lo hi c = record {
    fewer = λ p t. t;
    stays = λ p k r t h. t;
    consistent = c;
    above = λ p k r j t h. refl;
    others = λ w out k p h h' t. same refl;
  }

  pub Effect-trans :
      {level lo hi : ℕ} {m m' m'' : Machine T A} {tag tag' tag'' : Tags}
      → Effect level lo hi m m' tag tag'
      → Effect level lo hi m' m'' tag' tag''
      → Effect level lo hi m m'' tag tag''
  Effect-trans e f = record {
    fewer = λ p t. e.fewer p (f.fewer p t);
    stays = λ p k r t h. f.stays p k r (e.stays p k r t h) h;
    consistent = f.consistent;
    above = λ p k r j t h. f.above p k r j (e.stays p k r t (omega arith)) h ∙ e.above p k r j t h;
    others = λ w out k p h h' t.
        Spared-trans T A (e.others w out k p h h' t) (f.others w out k p h h' (e.stays p k _ t h));
  }

  pub Effect-widen :
      {level level' lo lo' hi hi' : ℕ} {m m' : Machine T A} {tag tag' : Tags}
      → level ≤ level'
      → lo' ≤ lo
      → hi ≤ hi'
      → Effect level lo hi m m' tag tag'
      → Effect level' lo' hi' m m' tag tag'
  Effect-widen dl dlo dhi e = record {
    fewer = e.fewer;
    stays = λ p k r t h. e.stays p k r t (omega arith);
    consistent = e.consistent;
    above = λ p k r j t h. e.above p k r j t (omega arith);
    others = λ w out k p h h' t.
        Spared-widen T A dlo dhi
          (e.others w (λ in_range. out (omega arith)) k p (omega arith) h' t);
  }

  pub Unique-fewer :
      {level lo hi : ℕ} {m m' : Machine T A} {tag tag' : Tags}
      → Effect level lo hi m m' tag tag'
      → Unique tag
      → Unique tag'
  Unique-fewer e u p q x t t' = u p q x (e.fewer p t) (e.fewer q t')

-- ===== src/Ranges/Merge.antt =====
-- crates/ranges-ext/src/lib.rs: the rounds of `merge_same_kind`, by their coverage.
use sparreal_os.Prelude.{
  ℕ, zero, suc, ◌≤◌, ◌<◌, ◌≡◌, refl, sym, ap, ◌∙◌, ◌⊎◌, true, ◌&&◌, ◌||◌, Option, none, some, List,
  [], ◌∷◌, length, arith, Bool-cases, Option-cases, inl, inr, min, max, subst,
}
use sparreal_os.Ranges.{
  RangeOp, RangeLaws, mergeable, touching, hull, take_partner, merge_pair, merge_same_kind,
}
use sparreal_os.Ranges.Coverage.{covers, covered, Valid}

-- A property of the value of an option, if it has one.
abbrev Found {ℓ} : {A : Type ℓ} → (A → Type 0) → Option A → Type 0
Found P none = Unit
Found P (some a) = P a

module _ (R : RangeOp) (laws : RangeLaws R) where
  hull_bounds :
      (x y : R.Item)
      → R.start x ≤ R.stop x
      → (R.start (hull R x y) ≡ min (R.start x) (R.start y))
        × (R.stop (hull R x y) ≡ max (R.stop x) (R.stop y))
  hull_bounds x y h =
      let lo = min (R.start x) (R.start y) in
      let hi = max (R.stop x) (R.stop y) in
      let order : lo ≤ hi = omega arith in
      (laws.clone_start x lo hi order, laws.clone_stop x lo hi order)

  -- Two ranges of one kind that touch cover what their hull covers.
  covers-hull :
      (x y : R.Item) (a : ℕ) (k : R.Kind)
      → R.start x ≤ R.stop x
      → R.start y ≤ R.stop y
      → (mergeable R x y && touching R x y) ≡ true
      → covers R (hull R x y) a k ≡ (covers R x a k || covers R y a k)
  covers-hull x y a k hx hy ok' =
      let (lo, hi) = hull_bounds x y hx in
      let same = laws.same_kind_lem (R.kind x) (R.kind y) k (ground arith) in
      rw (lo, hi, laws.clone_kind x (min (R.start x) (R.start y)) (max (R.stop x) (R.stop y)))
        (ground arith)

  -- What `take_partner` finds.
  pub record Partner (x : R.Item) (xs : List R.Item) (y : R.Item) (ys : List R.Item) : Type 0 where
    pub fits : (mergeable R x y && touching R x y) ≡ true
    pub shorter : suc (length ys) ≡ length xs
    pub valid : Valid R xs → (R.start y ≤ R.stop y) × Valid R ys
    pub same : (a : ℕ) (k : R.Kind) → covered R xs a k ≡ (covers R y a k || covered R ys a k)

  -- One range fewer, of the same coverage.
  pub record Merged (xs ys : List R.Item) : Type 0 where
    pub shorter : suc (length ys) ≡ length xs
    pub valid : Valid R ys
    pub same : (a : ℕ) (k : R.Kind) → covered R ys a k ≡ covered R xs a k

  abbrev Partners : R.Item → List R.Item → Option (R.Item × List R.Item) → Type 0
  Partners x xs o = Found {A = R.Item × List R.Item} (λ r. Partner x xs r.0 r.1) o

  abbrev Pairs : List R.Item → Option (List R.Item) → Type 0
  Pairs xs o = Found {A = List R.Item} (Merged xs) o

  later_partner :
      (x z : R.Item) (zs : List R.Item) (o : Option (R.Item × List R.Item))
      → Partners x zs o
      → Partners x (z ∷ zs) (elim o [ none ↦ none | some (y, ys) ↦ some (y, z ∷ ys) ])
  unfolding covered Valid
  later_partner x z zs none p = tt
  later_partner x z zs (some (y, ys)) p = record {
    fits = p.fits;
    shorter = ap suc p.shorter;
    valid = λ v. let (h, w) = p.valid v.1 in (h, (v.0, w));
    same = λ a k. let s = p.same a k in ground arith;
  }

  take_partner_lem : (x : R.Item) (xs : List R.Item) → Partners x xs (take_partner R x xs)
  unfolding take_partner covered Valid
  take_partner_lem x [] = tt
  take_partner_lem x (z ∷ zs) = elim (Bool-cases (mergeable R x z && touching R x z)) [
    | inl e ↦ rw e (record { fits = e; shorter = refl; valid = λ v. v; same = λ a k. refl })
    | inr e ↦ rw e (later_partner x z zs (take_partner R x zs) (take_partner_lem x zs))
  ]

  merge_step :
      (x : R.Item) (xs : List R.Item) (o : Option (R.Item × List R.Item))
      (rest : Option (List R.Item))
      → (R.start x ≤ R.stop x)
      → Valid R xs
      → Partners x xs o
      → Pairs xs rest
      → Pairs (x ∷ xs) (elim o [
        | some (y, ys) ↦ some (hull R x y ∷ ys)
        | none ↦ elim rest [ none ↦ none | some ys ↦ some (x ∷ ys) ]
      ])
  unfolding covered Valid
  merge_step x xs none none h v p m = tt
  merge_step x xs none (some ys) h v p m = record {
    shorter = ap suc m.shorter;
    valid = (h, m.valid);
    same = λ a k. rw (m.same a k);
  }
  merge_step x xs (some (y, ys)) rest h v p m =
      let (hy, w) = p.valid v in
      let (lo, hi) = hull_bounds x y h in
      record {
        shorter = ap suc p.shorter;
        valid = (rw (lo, hi) (omega arith), w);
        same = λ a k.
            let s = p.same a k in
            let c = covers-hull x y a k h hy p.fits in rw (c, s) (ground arith);
      }

  merge_pair_lem : (xs : List R.Item) → Valid R xs → Pairs xs (merge_pair R xs)
  unfolding merge_pair Valid
  merge_pair_lem [] v = tt
  merge_pair_lem (x ∷ xs) (h, v) =
      merge_step x xs (take_partner R x xs) (merge_pair R xs) h v (take_partner_lem x xs)
        (merge_pair_lem xs v)

  -- Two ranges of one kind leave addresses between them.
  abbrev pub Between : R.Item → R.Item → Type 0
  Between x y =
      R.same_kind (R.kind x) (R.kind y) ≡ true → (R.stop x < R.start y) ⊎ (R.stop y < R.start x)

  unfoldable pub BetweenAll : R.Item → List R.Item → Type 0
  BetweenAll x [] = Unit
  BetweenAll x (y ∷ ys) = Between x y × BetweenAll x ys

  -- No two ranges of a list that have one kind overlap or meet.
  unfoldable pub Separate : List R.Item → Type 0
  Separate [] = Unit
  Separate (x ∷ xs) = BetweenAll x xs × Separate xs

  abbrev one_more : R.Item → Option (R.Item × List R.Item) → Option (R.Item × List R.Item)
  one_more y o = elim o [ none ↦ none | some (z, zs) ↦ some (z, y ∷ zs) ]

  one_more-none : (y : R.Item) (o : Option (R.Item × List R.Item)) → one_more y o ≡ none → o ≡ none
  one_more-none y none h = refl
  one_more-none y (some p) h = absurd cc

  no_partner : (x : R.Item) (xs : List R.Item) → take_partner R x xs ≡ none → BetweenAll x xs
  unfolding take_partner BetweenAll
  no_partner x [] h = tt
  no_partner x (y ∷ ys) h = elim (Bool-cases (mergeable R x y && touching R x y)) [
    | inl e ↦
        let found : take_partner R x (y ∷ ys) ≡ some (y, ys) = rw e refl in
        let no : ◌≡◌ {A = Option (R.Item × List R.Item)} (some (y, ys)) none = sym found ∙ h in
        absurd cc
    | inr e ↦
        let later : take_partner R x (y ∷ ys) ≡ one_more y (take_partner R x ys) = rw e refl in
        (
          (λ same. ground arith),
          no_partner x ys (one_more-none y (take_partner R x ys) (sym later ∙ h)),
        )
  ]

  abbrev round :
      R.Item → Option (R.Item × List R.Item) → Option (List R.Item) → Option (List R.Item)
  round x o rest = elim o [
    | some (y, ys) ↦ some (hull R x y ∷ ys)
    | none ↦ elim rest [ none ↦ none | some ys ↦ some (x ∷ ys) ]
  ]

  round-none :
      (x : R.Item) (o : Option (R.Item × List R.Item)) (rest : Option (List R.Item))
      → round x o rest ≡ none
      → (o ≡ none) × (rest ≡ none)
  round-none x none none h = (refl, refl)
  round-none x none (some ys) h = absurd cc
  round-none x (some p) rest h = absurd cc

  no_pair : (xs : List R.Item) → merge_pair R xs ≡ none → Separate xs
  unfolding merge_pair Separate
  no_pair [] h = tt
  no_pair (x ∷ xs) h =
      let (alone, rest) = round-none x (take_partner R x xs) (merge_pair R xs) h in
      (no_partner x xs alone, no_pair xs rest)

  -- `merge_same_kind` ends within as many rounds as there are ranges, and one to see that it is
  -- done. What it leaves covers each address with the same kinds, and no two ranges that are left
  -- and have one kind overlap or meet.
  pub merge_same_kind_lem :
      (rounds : ℕ) (xs : List R.Item)
      → Valid R xs
      → length xs < rounds
      → (ys : List R.Item) × (merge_same_kind R rounds xs ≡ some ys)
        × Valid R ys
        × ((a : ℕ) (k : R.Kind) → covered R ys a k ≡ covered R xs a k)
        × Separate ys
  unfolding merge_same_kind
  merge_same_kind_lem zero xs v enough = absurd (omega arith)
  merge_same_kind_lem (suc rounds) xs v enough = elim (Option-cases (merge_pair R xs)) [
    | inl e ↦ (xs, rw (merge_same_kind, e), v, (λ a k. refl), no_pair xs e)
    | inr (ys, e) ↦
        let m : Merged xs ys = subst (Pairs xs) e (merge_pair_lem xs v) in
        let (zs, done, w, same, over) =
          merge_same_kind_lem rounds ys m.valid (omega (arith, m.shorter)) in
        (zs, rw (merge_same_kind, e) done, w, (λ a k. same a k ∙ m.same a k), over)
  ]

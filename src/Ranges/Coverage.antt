-- ===== src/Ranges/Coverage.antt =====
-- What a set of ranges means: which kinds cover an address.
use sparreal_os.Prelude.{
  ℕ, ◌≤◌, ◌≡◌, refl, Bool, false, ◌&&◌, ◌||◌, ltb, leb, List, [], ◌∷◌, ◌++◌, arith,
}
use sparreal_os.Ranges.{RangeOp}

module _ (R : RangeOp) where
  abbrev pub inside : R.Item → ℕ → Bool
  inside x a = leb (R.start x) a && ltb a (R.stop x)

  abbrev pub covers : R.Item → ℕ → R.Kind → Bool
  covers x a k = inside x a && R.same_kind (R.kind x) k

  -- Some range of this kind holds the address.
  unfoldable pub covered : List R.Item → ℕ → R.Kind → Bool
  covered [] a k = false
  covered (x ∷ xs) a k = covers x a k || covered xs a k

  unfoldable pub Valid : List R.Item → Type 0
  Valid [] = Unit
  Valid (x ∷ xs) = (R.start x ≤ R.stop x) × Valid xs

  pub covered-append :
      (xs ys : List R.Item) (a : ℕ) (k : R.Kind)
      → covered (xs ++ ys) a k ≡ (covered xs a k || covered ys a k)
  unfolding covered
  covered-append [] ys a k = refl
  covered-append (x ∷ xs) ys a k = let ih = covered-append xs ys a k in ground arith

  pub append-Valid : (xs ys : List R.Item) → Valid xs → Valid ys → Valid (xs ++ ys)
  unfolding Valid
  append-Valid [] ys v w = w
  append-Valid (x ∷ xs) ys (h, v) w = (h, append-Valid xs ys v w)

-- ===== src/Ranges.antt =====
-- crates/ranges-ext/src/lib.rs: sets of ranges over the vector of vec.rs, which never lacks room.
-- The loops by index that take out and put in elements are recursion on the list that is left.
pub mod Coverage
pub mod Merge
pub mod Add
pub mod Memory
mod Tests
use sparreal_os.Prelude.{
  ℕ, zero, suc, ◌≤◌, ◌≡◌, min, max, Bool, true, false, not, ◌&&◌, ◌||◌, if◌then◌else◌, ltb, leb,
  Option, none, some, List, [], ◌∷◌, ◌++◌, length,
}
use sparreal_os.Prelude.Outcome.{Run, ok, err, panic, out_of_fuel, and_then}

-- `start` and `stop` are the ends of `range`; `same_kind` is `==` on kinds.
pub record RangeOp : Type 1 where
  pub Item : Type 0
  pub Kind : Type 0
  pub start : Item → ℕ
  pub stop : Item → ℕ
  pub kind : Item → Kind
  pub same_kind : Kind → Kind → Bool
  pub overwritable : Item → Item → Bool
  pub clone_with_range : Item → ℕ → ℕ → Item

-- What the code relies on in an implementation of `RangeOp`.
pub record RangeLaws (R : RangeOp) : Type 0 where
  pub clone_start : (x : R.Item) (a b : ℕ) → a ≤ b → R.start (R.clone_with_range x a b) ≡ a
  pub clone_stop : (x : R.Item) (a b : ℕ) → a ≤ b → R.stop (R.clone_with_range x a b) ≡ b
  pub clone_kind : (x : R.Item) (a b : ℕ) → R.kind (R.clone_with_range x a b) ≡ R.kind x
  pub same_kind_lem : (j k l : R.Kind) → R.same_kind j k ≡ true → R.same_kind j l ≡ R.same_kind k l

module _ (R : RangeOp) where
  pub data RangeError : Type 0 where
    capacity : RangeError
    conflict : (new existing : R.Item) → RangeError

  abbrev pub mergeable : R.Item → R.Item → Bool
  mergeable x y = R.same_kind (R.kind x) (R.kind y)

  abbrev pub touching : R.Item → R.Item → Bool
  touching x y = leb (R.start y) (R.stop x) && leb (R.start x) (R.stop y)

  abbrev pub hull : R.Item → R.Item → R.Item
  hull x y = R.clone_with_range x (min (R.start x) (R.start y)) (max (R.stop x) (R.stop y))

  -- The first later item that `x` merges with, and the later items without it.
  unfoldable pub take_partner : R.Item → List R.Item → Option (R.Item × List R.Item)
  take_partner x [] = none
  take_partner x (y ∷ ys) =
      let rest = take_partner x ys in
      if mergeable x y && touching x y
      then some (y, ys)
      else elim rest [ none ↦ none | some (z, zs) ↦ some (z, y ∷ zs) ]

  -- One round of `merge_same_kind`; `none` ends its loop.
  unfoldable pub merge_pair : List R.Item → Option (List R.Item)
  merge_pair [] = none
  merge_pair (x ∷ xs) =
      let rest = merge_pair xs in
      elim (take_partner x xs) [
        | some (y, ys) ↦ some (hull x y ∷ ys)
        | none ↦ elim rest [ none ↦ none | some ys ↦ some (x ∷ ys) ]
      ]

  unfoldable pub merge_same_kind : (rounds : ℕ) → List R.Item → Option (List R.Item)
  merge_same_kind zero items = none
  merge_same_kind (suc rounds) items = elim (merge_pair items) [
    | none ↦ some items
    | some items' ↦ merge_same_kind rounds items'
  ]

  abbrev pub overlaps : R.Item → R.Item → Bool
  overlaps new existing = ltb (R.start new) (R.stop existing) && ltb (R.start existing) (R.stop new)

  -- What is left of an item under a new one that overlaps it.
  unfoldable pub remains : R.Item → R.Item → List R.Item
  remains new e =
      if leb (R.start new) (R.start e) && leb (R.stop e) (R.stop new)
      then []
      else if ltb (R.start e) (R.start new) && ltb (R.stop new) (R.stop e)
      then R.clone_with_range e (R.start e) (R.start new)
        ∷ R.clone_with_range e (R.stop new) (R.stop e)
        ∷ []
      else if leb (R.start new) (R.start e)
      then R.clone_with_range e (R.stop new) (R.stop e) ∷ []
      else R.clone_with_range e (R.start e) (R.start new) ∷ []

  abbrev pub keep :
      List R.Item
      → Run RangeError (List R.Item) (Unit {0})
      → Run RangeError (List R.Item) (Unit {0})
  keep kept (ok u items) = ok u (kept ++ items)
  keep kept (err e items) = err e (kept ++ items)
  keep kept panic = panic
  keep kept out_of_fuel = out_of_fuel

  -- The loop of `merge_add`; on a conflict the items before it have been cut already.
  unfoldable pub overlay : R.Item → List R.Item → Run RangeError (List R.Item) (Unit {0})
  overlay new [] = ok tt []
  overlay new (e ∷ es) =
      let rest = overlay new es in
      if overlaps new e
      then (if not (R.overwritable e new || mergeable e new)
          then err (conflict new e) (e ∷ es)
          else keep (remains new e) rest)
      else keep (e ∷ []) rest

  unfoldable pub merge_add : R.Item → List R.Item → Run RangeError (List R.Item) (Unit {0})
  merge_add new items = and_then (overlay new items) (λ u kept.
      elim (merge_same_kind (suc (length (kept ++ new ∷ []))) (kept ++ new ∷ [])) [
        | none ↦ out_of_fuel
        | some merged ↦ ok tt merged
      ])

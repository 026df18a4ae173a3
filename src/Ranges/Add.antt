-- ===== src/Ranges/Add.antt =====
-- crates/ranges-ext/src/lib.rs: `merge_add`, by the coverage of what is cut and added.
use sparreal_os.Prelude.{
  ℕ, suc, ◌≤◌, ◌≡◌, refl, true, false, not, ◌&&◌, ◌||◌, ltb, leb, List, [], ◌∷◌, ◌++◌, length,
  arith, Bool-cases, inl, inr,
}
use sparreal_os.Prelude.Outcome.{Run, Ensures, returns, fails, bind}
use sparreal_os.Ranges.{
  RangeOp, RangeLaws, RangeError, conflict, capacity, mergeable, overlaps, remains, keep, overlay,
  merge_add,
}
use sparreal_os.Ranges.Coverage.{inside, covers, covered, Valid, covered-append, append-Valid}
use sparreal_os.Ranges.Merge.{merge_same_kind_lem}

module _ (R : RangeOp) (laws : RangeLaws R) (new : R.Item) where
  -- The coverage of `xs` with the addresses of the new range cut out.
  pub record Cut (xs ys : List R.Item) : Type 0 where
    pub valid : Valid R ys
    pub same : (a : ℕ) (k : R.Kind) → covered R ys a k ≡ (covered R xs a k && not (inside R new a))

  -- A conflict is with a range that overlaps the new one, is of another kind, and does not give way.
  abbrev pub Conflicts : RangeError R → Type 0
  Conflicts capacity = ⊥
  Conflicts (conflict x y) =
      (x ≡ new) × (overlaps R new y ≡ true) × ((R.overwritable y new || mergeable R y new) ≡ false)

  remains_lem :
      (e : R.Item) → R.start e ≤ R.stop e → overlaps R new e ≡ true → Cut (e ∷ []) (remains R new e)
  unfolding remains Valid covered
  remains_lem e h over =
      elim (Bool-cases (leb (R.start new) (R.start e) && leb (R.stop e) (R.stop new))) [
        | inl all ↦ rw all (record { valid = tt; same = λ a k. ground arith })
        | inr some' ↦
            elim (Bool-cases (ltb (R.start e) (R.start new) && ltb (R.stop new) (R.stop e))) [
              | inl middle ↦
                  let l₁ = laws.clone_start e (R.start e) (R.start new) (ground arith) in
                  let l₂ = laws.clone_stop e (R.start e) (R.start new) (ground arith) in
                  let l₃ = laws.clone_kind e (R.start e) (R.start new) in
                  let r₁ = laws.clone_start e (R.stop new) (R.stop e) (ground arith) in
                  let r₂ = laws.clone_stop e (R.stop new) (R.stop e) (ground arith) in
                  let r₃ = laws.clone_kind e (R.stop new) (R.stop e) in
                  rw (some', middle)
                    (record {
                      valid = (rw (l₁, l₂) (ground arith), (rw (r₁, r₂) (ground arith), tt));
                      same = λ a k. rw (l₁, l₂, l₃, r₁, r₂, r₃) (ground arith);
                    })
              | inr side ↦ elim (Bool-cases (leb (R.start new) (R.start e))) [
                | inl left ↦
                    let r₁ = laws.clone_start e (R.stop new) (R.stop e) (ground arith) in
                    let r₂ = laws.clone_stop e (R.stop new) (R.stop e) (ground arith) in
                    let r₃ = laws.clone_kind e (R.stop new) (R.stop e) in
                    rw (some', side, left)
                      (record {
                        valid = (rw (r₁, r₂) (ground arith), tt);
                        same = λ a k. rw (r₁, r₂, r₃) (ground arith);
                      })
                | inr right ↦
                    let l₁ = laws.clone_start e (R.start e) (R.start new) (ground arith) in
                    let l₂ = laws.clone_stop e (R.start e) (R.start new) (ground arith) in
                    let l₃ = laws.clone_kind e (R.start e) (R.start new) in
                    rw (some', side, right)
                      (record {
                        valid = (rw (l₁, l₂) (ground arith), tt);
                        same = λ a k. rw (l₁, l₂, l₃) (ground arith);
                      })
              ]
            ]
      ]

  apart : (e : R.Item) → R.start e ≤ R.stop e → overlaps R new e ≡ false → Cut (e ∷ []) (e ∷ [])
  unfolding Valid covered
  apart e h over = record { valid = (h, tt); same = λ a k. ground arith }

  -- After a conflict: the addresses outside the new range are covered as before.
  pub record Aborted (xs : List R.Item) (e : RangeError R) (ys : List R.Item) : Type 0 where
    pub conflicts : Conflicts e
    pub valid : Valid R ys
    pub outside :
        (a : ℕ) (k : R.Kind) → inside R new a ≡ false → covered R ys a k ≡ covered R xs a k

  keep_lem :
      (e : R.Item) (es kept : List R.Item) {r : Run (RangeError R) (List R.Item) (Unit {0})}
      → Cut (e ∷ []) kept
      → Ensures (λ _. Cut es) (Aborted es) r
      → Ensures (λ _. Cut (e ∷ es)) (Aborted (e ∷ es)) (keep R kept r)
  unfolding covered
  keep_lem e es kept c (returns p) = returns (record {
    valid = append-Valid R kept _ c.valid p.valid;
    same = λ a k.
        let first = c.same a k in
        let rest = p.same a k in rw (covered-append R kept _ a k, first, rest) (ground arith);
  })
  keep_lem e es kept c (fails q) = fails (record {
    conflicts = q.conflicts;
    valid = append-Valid R kept _ c.valid q.valid;
    outside = λ a k out.
        let first = c.same a k in
        let rest = q.outside a k out in
        rw (covered-append R kept _ a k, first, rest, out) (ground arith);
  })

  overlay_lem :
      (xs : List R.Item) → Valid R xs → Ensures (λ _. Cut xs) (Aborted xs) (overlay R new xs)
  unfolding overlay Valid covered
  overlay_lem [] v = returns (record { valid = tt; same = λ a k. refl })
  overlay_lem (e ∷ es) (h, v) = elim (Bool-cases (overlaps R new e)) [
    | inr o ↦ rw o (keep_lem e es (e ∷ []) (apart e h o) (overlay_lem es v))
    | inl o ↦ elim (Bool-cases (R.overwritable e new || mergeable R e new)) [
      | inl may ↦
          rw (o, may) (keep_lem e es (remains R new e) (remains_lem e h o) (overlay_lem es v))
      | inr no' ↦
          rw (o, no')
            (fails
              (record { conflicts = (refl, o, no'); valid = (h, v); outside = λ a k out. refl }))
    ]
  ]

  -- The new range lies over what was there before.
  pub record Added (xs ys : List R.Item) : Type 0 where
    pub valid : Valid R ys
    pub same :
        (a : ℕ) (k : R.Kind)
        → covered R ys a k ≡ (covers R new a k || covered R xs a k && not (inside R new a))

  -- Adding a range to ranges that do not run backwards always ends, without a panic. If it returns,
  -- each address of the new range has the kind of the new range and no other, and every other
  -- address has the kinds that it had. If it fails, it names a range that overlaps the new one, has
  -- another kind and may not be overwritten, and the addresses outside the new range have the kinds
  -- that they had.
  pub merge_add_lem :
      (xs : List R.Item)
      → Valid R xs
      → R.start new ≤ R.stop new
      → Ensures (λ _. Added xs) (Aborted xs) (merge_add R new xs)
  unfolding merge_add Valid covered
  merge_add_lem xs v h =
      bind (overlay_lem xs v)
        (λ u kept c.
          let all = append-Valid R kept (new ∷ []) c.valid (h, tt) in
          let (ys, done, w, same, over) =
            merge_same_kind_lem R laws (suc (length (kept ++ new ∷ []))) (kept ++ new ∷ []) all
              (omega arith) in
          rw done (
            returns (record {
              valid = w;
              same = λ a k.
                  let cut = c.same a k in
                  rw (same a k, covered-append R kept (new ∷ []) a k, cut) (ground arith);
            })))
        (λ e kept q. q)

-- ===== src/Paging/Translate/Answers.antt =====
-- `translate` by the abstract lookup.
use sparreal_os.Prelude.{
  ℕ, suc, ◌-◌, ◌≡◌, ◌∙◌, inl, inr, Option, none, some, arith, Option-cases, subst,
}
use sparreal_os.Prelude.Outcome.{Run, ok, err, panic, out_of_fuel}
use sparreal_os.Paging.Config.{not_mapped}
use sparreal_os.Paging.Geometry.{GeometryLaws}
use sparreal_os.Paging.Meta.{TableMeta, FrameAllocator, Machine, table_levels}
use sparreal_os.Paging.Translate.{translate, translate_recursive_with_level, phys_of}
use sparreal_os.Paging.Translate.Lookup.{lookup, translate-lookup, found}

-- The value of a run, if it has one.
abbrev pub answer {ℓ} : {E S : Type 0} {A : Type ℓ} → Run E S A → Option A
answer (ok a s) = some a
answer (err e s) = none
answer panic = none
answer out_of_fuel = none

module _ (T : TableMeta) (A : FrameAllocator) (g : GeometryLaws T) where
  walk_lem :
      (m : Machine T A) (root v : ℕ)
      → translate_recursive_with_level T A (table_levels T) root v m
        ≡ found T A m (lookup T A m (table_levels T) root v)
  walk_lem m root v =
      let top : table_levels T ≡ suc (table_levels T - 1) = omega (arith, g.nonempty) in
      subst
        (λ l. translate_recursive_with_level T A l root v m ≡ found T A m (lookup T A m l root v))
        (omega (arith, g.nonempty))
        (translate-lookup T A g m (table_levels T - 1) root v (omega (arith, g.nonempty)))

  -- The walk of `translate` finds what the table means, or fails with `NotMapped`.
  pub translate-none :
      (m : Machine T A) (root v : ℕ)
      → lookup T A m (table_levels T) root v ≡ none
      → translate T A root v m ≡ err not_mapped m
  unfolding translate
  translate-none m root v none' = rw (walk_lem m root v, none')

  pub translate-some :
      (m : Machine T A) (root v : ℕ) {x : T.Pte × ℕ}
      → lookup T A m (table_levels T) root v ≡ some x
      → translate T A root v m ≡ ok (phys_of T v x, x.0) m
  unfolding translate
  translate-some m root v some' = rw (walk_lem m root v, some')

  -- Where two memories mean the same, `translate` answers the same.
  pub answer-translate :
      (m m' : Machine T A) (root v : ℕ)
      → lookup T A m' (table_levels T) root v ≡ lookup T A m (table_levels T) root v
      → answer (translate T A root v m') ≡ answer (translate T A root v m)
  answer-translate m m' root v same = elim (Option-cases (lookup T A m (table_levels T) root v)) [
    | inl e ↦ rw (translate-none m root v e, translate-none m' root v (same ∙ e))
    | inr (x, e) ↦ rw (translate-some m root v e, translate-some m' root v (same ∙ e))
  ]

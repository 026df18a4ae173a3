-- ===== src/Paging/Unmap/Steps.antt =====
-- The states of the loop of `unmap_range_recursive` between its iterations.
use native.Mathlib.Nat.{le_refl}
use sparreal_os.Prelude.{
  ℕ, zero, suc, ◌+◌, ◌%◌, ◌^◌, ◌≤◌, ◌<◌, ◌≡◌, refl, sym, ap, ◌∙◌, ◌⊎◌, ◌≢◌, inl, inr, Bool, true,
  false, none, some, arith, Bool-cases, ltb, ltb→lt, ltb-false→le, not, ◌&&◌, ==_self,
}
use sparreal_os.Prelude.Outcome.{Run, Ensures, returns, mono}
use sparreal_os.Paging.Config.{PagingError, usize_mod, invalid_config}
use sparreal_os.Paging.Frame.{store_entry, write_entry}
use sparreal_os.Paging.Geometry.{GeometryLaws}
use sparreal_os.Paging.Geometry.Shifts.{shift, pow-le}
use sparreal_os.Paging.Geometry.Slots.{slot, index, region, region-eq-slot, index_of_slot}
use sparreal_os.Paging.Map.Tags.{Tags, Consistent, child_tag}
use sparreal_os.Paging.Meta.{TableMeta, FrameAllocator, Machine, table_levels, EntryLaws, FrameLaws}
use sparreal_os.Paging.Translate.Lookup.{
  vacant, pointer, kind, kind_invalid, lookup, lookup_pointer,
}
use sparreal_os.Paging.Unmap.{no_valid, reclaim, release}
use sparreal_os.Paging.Unmap.Effect.{
  Unique, Unique-fewer, Effect, Effect-trans, Effect-widen, Spared-none,
}
use sparreal_os.Paging.Unmap.Free.{Blank, Unlinked, free-Effect, tag_without}
use sparreal_os.Paging.Unmap.Slots.{Starts, Starts-pointer, Starts-aligned, shift-suc-le}

eq-cases : (p q : ℕ) → (p ≡ q) ⊎ (p ≢ q)
eq-cases p q = ground arith

false_of_and : (a b : Bool) → (not a && b) ≡ true → a ≡ false
false_of_and false b h = refl
false_of_and true b h = ground arith

and_right : (a b : Bool) → (a && b) ≡ true → b ≡ true
and_right true b h = h
and_right false b h = ground arith

module _ (T : TableMeta) (A : FrameAllocator) (laws : EntryLaws T)
    (fl : FrameLaws T laws.phys_limit A) where
  -- What the loop is called with.
  pub record Ready (level frame v e : ℕ) (m : Machine T A) (tag : Tags) : Type 0 where
    pub consistent : Consistent T A fl.live m tag
    pub unique : Unique tag
    pub pos : 0 < level
    pub deep : level ≤ table_levels T
    pub tagged : (w : ℕ) → v ≤ w → w < e → tag frame ≡ some (level, region T level w)
    pub room : e + 2 ^ shift T level ≤ usize_mod

  -- What it has done when it returns.
  pub record Done (level frame v e : ℕ) (m : Machine T A) (tag : Tags) (empty : Bool)
      (m' : Machine T A) : Type 0 where
    pub tag' : Tags
    pub effect : Effect T A fl.live level v e m m' tag tag'
    pub gone :
        Starts T A m level frame v → (w : ℕ) → v ≤ w → w < e → lookup T A m' level frame w ≡ none
    pub blank : empty ≡ true → Blank T A laws fl m' frame

  abbrev pub Result :
      (level frame v e : ℕ) → Machine T A → Tags → Run PagingError (Machine T A) Bool → Type 0
  Result level frame v e m tag = Ensures (Done level frame v e m tag) (λ _ _. ⊥)

  -- The loop of `is_frame_empty`.
  pub no_valid-Blank :
      (n frame i : ℕ) (m : Machine T A)
      → no_valid T A n frame i m ≡ true
      → (j : ℕ) → i ≤ j
      → j < i + n
      → T.valid (m.table frame j) ≡ false
  unfolding no_valid
  no_valid-Blank zero frame i m none_valid j lo hi = absurd (omega arith)
  no_valid-Blank (suc n) frame i m none_valid j lo hi = elim (eq-cases j i) [
    | inl e ↦ rw e (
        laws.valid_lem (m.table frame i) false
        ∙ false_of_and (T.to_config (m.table frame i) false).valid _ none_valid)
    | inr ne ↦
        no_valid-Blank n frame (suc i) m
          (and_right (not (T.to_config (m.table frame i) false).valid) _ none_valid) j (omega arith)
          (omega arith)
  ]

  -- An iteration up to its new position.
  pub record Step (l frame v v' e : ℕ) (m : Machine T A) (tag : Tags) (m' : Machine T A)
      : Type 0 where
    pub tag' : Tags
    pub effect : Effect T A fl.live (suc l) v e m m' tag tag'
    pub passed :
        Starts T A m (suc l) frame v
        → (v' < e → v' % 2 ^ shift T (suc l) ≡ 0)
          × ((w : ℕ) → v ≤ w → w < v' → lookup T A m' (suc l) frame w ≡ none)

  module _ (l frame v e : ℕ) (m : Machine T A) (tag : Tags)
      (ready : Ready (suc l) frame v e m tag) where
    -- The loop goes on behind an iteration.
    pub Step-Ready :
        (v' : ℕ) {m' : Machine T A}
        → v < v'
        → (step : Step l frame v v' e m tag m') → Ready (suc l) frame v' e m' step.tag'
    Step-Ready v' lt step = record {
      consistent = step.effect.consistent;
      unique = Unique-fewer T A fl.live step.effect ready.unique;
      pos = ready.pos;
      deep = ready.deep;
      tagged = λ w lo hi.
          step.effect.stays frame _ _ (ready.tagged w (omega arith) hi) (le_refl (suc l));
      room = ready.room;
    }

    pub Step-Done :
        (v' : ℕ) {m' : Machine T A}
        → v < v'
        → (step : Step l frame v v' e m tag m') → {run : Run PagingError (Machine T A) Bool}
        → Result (suc l) frame v' e m' step.tag' run
        → Result (suc l) frame v e m tag run
    Step-Done v' {m'} lt step rest =
        mono rest
          (λ b s done. record {
            tag' = done.tag';
            effect =
                Effect-trans T A fl.live step.effect (
                  Effect-widen T A fl.live (le_refl (suc l)) (omega arith) (le_refl e) done.effect);
            gone = λ starts w lo hi. elim (Bool-cases (ltb w v')) [
              | inl first ↦
                  let before = ltb→lt w v' first in
                  let known =
                    step.effect.stays frame _ _ (ready.tagged w lo hi) (le_refl (suc l)) in
                  let spared =
                    done.effect.others w (λ in_range. omega arith) (suc l) frame (le_refl (suc l))
                      ready.deep known in
                  Spared-none T A spared ((step.passed starts).1 w lo before)
              | inr second ↦
                  let ge = ltb-false→le w v' second in
                  let aligned = (step.passed starts).0 (omega arith) in
                  done.gone (Starts-aligned T A m' l frame v' ready.deep aligned) w ge hi
            ];
            blank = done.blank;
          })
          (λ _ s failed. failed)

    -- The table below is ready for its part of the range.
    pub Ready-below :
        (child next : ℕ)
        → 0 < l
        → v < next
        → next ≤ e
        → ((w : ℕ) → v ≤ w → w < next → slot T (suc l) w ≡ slot T (suc l) v)
        → kind T l (m.table frame (index T (suc l) v)) ≡ pointer child
        → Ready l child v next m tag
    Ready-below child next pos lt fits inside points = record {
      consistent = ready.consistent;
      unique = ready.unique;
      pos = pos;
      deep = omega (arith, ready.deep);
      tagged = λ w lo hi.
          let same : region T l w ≡ region T l v =
            region-eq-slot T l w pos ready.deep
            ∙ inside w lo hi
            ∙ sym (region-eq-slot T l v pos ready.deep) in
          child_tag T A m tag ready.consistent frame l v pos ready.deep
            (ready.tagged v (le_refl v) (omega arith)) points
          ∙ ap (λ r. some (l, r)) (sym same);
      room = omega (
        arith,
        ready.room,
        pow-le (shift T l) (shift T (suc l)) (shift-suc-le T l pos ready.deep),
      );
    }

    -- What the recursive call makes of the iteration.
    below-Step :
        (child next : ℕ) {b : Bool} {s : Machine T A}
        → v < next
        → next ≤ e
        → (next < e → next % 2 ^ shift T (suc l) ≡ 0)
        → ((w : ℕ) → v ≤ w → w < next → slot T (suc l) w ≡ slot T (suc l) v)
        → kind T l (m.table frame (index T (suc l) v)) ≡ pointer child
        → Done l child v next m tag b s
        → Step l frame v next e m tag s
    below-Step child next {s = s} lt fits aligned inside points done = record {
      tag' = done.tag';
      effect = Effect-widen T A fl.live (omega arith) (le_refl v) fits done.effect;
      passed = λ starts. (
        aligned,
        λ w lo hi.
            let same =
              done.effect.above frame (suc l) _ (index T (suc l) v)
                (ready.tagged v (le_refl v) (omega arith)) (omega arith) in
            let here : kind T l (s.table frame (index T (suc l) w)) ≡ pointer child =
              ap (λ i. kind T l (s.table frame i)) (index_of_slot T (suc l) v w (inside w lo hi))
              ∙ ap (kind T l) same
              ∙ points in
            lookup_pointer T A s l frame w here
            ∙ done.gone (Starts-pointer T A m l frame v points starts) w lo hi,
      );
    }

    -- An empty child is unlinked and freed.
    free-Step :
        (g : GeometryLaws T) (child next : ℕ) {s : Machine T A} (can : Bool)
        → v < next
        → next ≤ e
        → (next < e → next % 2 ^ shift T (suc l) ≡ 0)
        → ((w : ℕ) → v ≤ w → w < next → slot T (suc l) w ≡ slot T (suc l) v)
        → kind T l (m.table frame (index T (suc l) v)) ≡ pointer child
        → Done l child v next m tag true s
        → Ensures
            (λ _. Step l frame v next e m tag)
            (λ _ _. ⊥)
            (reclaim T A frame (index T (suc l) v) child true can s)
    unfolding reclaim store_entry release write_entry
    free-Step g child next {s} can lt fits aligned inside points done =
        let pte = T.from_config invalid_config in
        let i = index T (suc l) v in
        let step = below-Step child next lt fits aligned inside points done in
        let here =
          step.effect.stays frame _ _ (ready.tagged v (le_refl v) (omega arith))
            (le_refl (suc l)) in
        let same =
          done.effect.above frame (suc l) _ i (ready.tagged v (le_refl v) (omega arith))
            (omega arith) in
        let unlinked : Unlinked T A laws fl s
            (record (write_entry T A frame i pte s) { frames = A.dealloc_frame child s.frames })
            frame i child pte =
          record {
            here = rw (==_self frame, ==_self i);
            elsewhere = λ p j other. ground arith;
            frames = refl;
          } in
        let empty : kind T l pte ≡ vacant =
          kind_invalid T laws l pte
            (laws.valid_lem pte false ∙ laws.from_invalid invalid_config false refl) in
        let freed =
          free-Effect T A laws fl g s _ step.tag' frame v l child pte step.effect.consistent
            (Unique-fewer T A fl.live step.effect ready.unique) here ready.deep empty unlinked
            (ap (kind T l) same ∙ points) (done.blank refl) v in
        returns (record {
          tag' = tag_without step.tag' child;
          effect =
              Effect-trans T A fl.live step.effect
                (Effect-widen T A fl.live (le_refl (suc l)) (le_refl v) (omega arith) freed);
          passed = λ starts. (
            aligned,
            λ w lo hi.
                Spared-none T A
                  (freed.others w (λ in_range. omega arith) (suc l) frame (le_refl (suc l))
                    ready.deep
                    (step.effect.stays frame _ _ (ready.tagged w lo (omega arith))
                      (le_refl (suc l))))
                  ((step.passed starts).1 w lo hi),
          );
        })

    -- What becomes of the entry behind the recursive call.
    pub reclaim-Step :
        (g : GeometryLaws T) (child next : ℕ) {s : Machine T A} (empty can : Bool)
        → v < next
        → next ≤ e
        → (next < e → next % 2 ^ shift T (suc l) ≡ 0)
        → ((w : ℕ) → v ≤ w → w < next → slot T (suc l) w ≡ slot T (suc l) v)
        → kind T l (m.table frame (index T (suc l) v)) ≡ pointer child
        → Done l child v next m tag empty s
        → Ensures
            (λ _. Step l frame v next e m tag)
            (λ _ _. ⊥)
            (reclaim T A frame (index T (suc l) v) child empty can s)
    unfolding reclaim
    reclaim-Step g child next true can lt fits aligned inside points done =
        free-Step g child next can lt fits aligned inside points done
    reclaim-Step g child next false can lt fits aligned inside points done =
        returns (below-Step child next lt fits aligned inside points done)

-- ===== src/Paging/Unmap/Loop.antt =====
-- The loop of `unmap_range_recursive`, by induction on the level and the rounds.
use native.Mathlib.Nat.{le_refl}
use sparreal_os.Prelude.{
  ℕ, zero, suc, ◌-◌, ◌≤◌, ◌<◌, ◌≡◌, inl, inr, Bool, true, false, none, arith, Bool-cases, ltb,
  ltb→lt, ltb-false→le,
}
use sparreal_os.Prelude.Outcome.{Run, returns, bind}
use sparreal_os.Paging.Config.{PagingError}
use sparreal_os.Paging.Geometry.{GeometryLaws}
use sparreal_os.Paging.Map.Tags.{Tags}
use sparreal_os.Paging.Meta.{TableMeta, FrameAllocator, Machine, EntryLaws, FrameLaws}
use sparreal_os.Paging.Translate.Lookup.{lookup}
use sparreal_os.Paging.Unmap.{Round, is_frame_empty, finish, reclaim, next_iteration, unmap_range}
use sparreal_os.Paging.Unmap.Effect.{Effect-refl}
use sparreal_os.Paging.Unmap.Rounds.{Rounded, advanced, descended, unmap_round-Rounded}
use sparreal_os.Paging.Unmap.Steps.{
  Ready, Result, Step, no_valid-Blank, Step-Ready, Step-Done, Ready-below, reclaim-Step,
}

module _ (T : TableMeta) (A : FrameAllocator) (laws : EntryLaws T)
    (fl : FrameLaws T laws.phys_limit A) (g : GeometryLaws T) where
  -- An iteration, given that the rest of the loop and the table below do what they should.
  next_iteration-Done :
      (flush : Bool) (l frame v e : ℕ) (m : Machine T A) (tag : Tags)
      (again : ℕ → Bool → Machine T A → Run PagingError (Machine T A) Bool)
      (below : ℕ → ℕ → Machine T A → Run PagingError (Machine T A) Bool) (can : Bool)
      → Ready T A laws fl (suc l) frame v e m tag
      → ((v' : ℕ) (can' : Bool) (s : Machine T A) (tag' : Tags)
          → v < v'
          → Ready T A laws fl (suc l) frame v' e s tag'
          → Result T A laws fl (suc l) frame v' e s tag' (again v' can' s))
      → ((child next : ℕ)
          → Ready T A laws fl l child v next m tag
          → Result T A laws fl l child v next m tag (below child next m))
      → (round : Round) (s : Machine T A) → Rounded T A fl.live l frame v e m tag round s
      → Result T A laws fl
          (suc l)
          frame
          v
          e
          m
          tag
          (next_iteration T A flush again below frame can round s)
  unfolding next_iteration reclaim
  next_iteration-Done flush l frame v e m tag again below can ready ih ih' _ s
        (advanced {v'} lt effect passed) =
      let step : Step T A laws fl l frame v v' e m tag s = record {
        tag' = tag;
        effect = effect;
        passed = passed;
      } in
      Step-Done T A laws fl l frame v e m tag ready v' lt step
        (ih v' can s tag lt (Step-Ready T A laws fl l frame v e m tag ready v' lt step))
  next_iteration-Done flush l frame v e m tag again below can ready ih ih' _ s
        (descended {child} {next} pos lt fits aligned inside points) =
      let ready' =
        Ready-below T A laws fl l frame v e m tag ready child next pos lt fits inside points in
      bind (ih' child next ready')
        (λ empty s' done.
          bind
            (reclaim-Step T A laws fl l frame v e m tag ready g child next empty can lt fits aligned
              inside points done)
            (λ can' s'' step. Step-Done T A laws fl l frame v e m tag ready next lt step (
              ih next can' s'' step.tag' lt
                (Step-Ready T A laws fl l frame v e m tag ready next lt step)))
            (λ _ _ failed. failed))
        (λ _ _ failed. failed)

  finish-Done :
      (level frame v e : ℕ) (m : Machine T A) (tag : Tags) (can : Bool)
      → Ready T A laws fl level frame v e m tag
      → e ≤ v
      → Result T A laws fl level frame v e m tag (finish T A frame can m)
  unfolding finish is_frame_empty
  finish-Done level frame v e m tag can ready le =
      let gone : (w : ℕ) → v ≤ w → w < e → lookup T A m level frame w ≡ none =
        λ w lo hi. absurd (omega arith) in
      let same = Effect-refl T A fl.live level v e ready.consistent in
      elim (Bool-cases can) [
        | inr off ↦ rw off (
            returns
              (record { tag' = tag; effect = same; gone = λ _. gone; blank = λ h. ground arith }))
        | inl on ↦ rw on (
            returns (record {
              tag' = tag;
              effect = same;
              gone = λ _. gone;
              blank = λ h j small.
                  no_valid-Blank T A laws fl T.entries frame 0 m h j (omega arith)
                    (omega (arith, small));
            }))
      ]

  pub unmap_range-Done :
      (flush : Bool) (level rounds frame v e : ℕ) (can : Bool) (m : Machine T A) (tag : Tags)
      → Ready T A laws fl level frame v e m tag
      → e - v ≤ rounds
      → Result T A laws fl level frame v e m tag
          (unmap_range T A flush level rounds frame v e can m)
  unfolding unmap_range
  unmap_range-Done flush zero rounds frame v e can m tag ready enough =
      absurd (omega (arith, ready.pos))
  unmap_range-Done flush (suc l) zero frame v e can m tag ready enough =
      let stop : ltb v e ≡ false = ground arith in
      rw (stop, unmap_range) (finish-Done (suc l) frame v e m tag can ready (ltb-false→le v e stop))
  unmap_range-Done flush (suc l) (suc rounds) frame v e can m tag ready enough =
      elim (Bool-cases (ltb v e)) [
        | inr stop ↦
            rw (stop, unmap_range)
              (finish-Done (suc l) frame v e m tag can ready (ltb-false→le v e stop))
        | inl more ↦
            let lt = ltb→lt v e more in
            rw (more, unmap_range)
              (bind
                (unmap_round-Rounded T A fl.live flush g laws l frame v e m tag ready.consistent
                  ready.deep lt (ready.tagged v (le_refl v) lt) ready.room)
                (next_iteration-Done flush l frame v e m tag _ _ can ready
                  (λ v' can' s tag' later ready'.
                    unmap_range-Done flush (suc l) rounds frame v' e can' s tag' ready'
                      (omega arith))
                  (λ child next ready'.
                    unmap_range-Done flush l (next - v) child v next true m tag ready'
                      (le_refl (next - v))))
                (λ _ _ failed. failed))
      ]

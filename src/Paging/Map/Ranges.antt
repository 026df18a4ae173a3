-- ===== src/Paging/Map/Ranges.antt =====
-- The loop of `map_range_recursive`, by induction on the level and the rounds.
use sparreal_os.Prelude.{
  ℕ, zero, suc, ◌+◌, ◌-◌, ◌%◌, ◌≤◌, ◌<◌, ◌≡◌, sym, ap, ◌∙◌, inl, inr, Bool, false, some, arith,
  Bool-cases, ltb, ltb→lt, ltb-false→le, lt→ltb, subst,
}
use sparreal_os.Prelude.Outcome.{Run, Ensures, returns, bind, mono}
use sparreal_os.Paging.Config.{PhysAddr, PteConfig, PagingError, usize_mod}
use sparreal_os.Paging.Frame.{checked}
use sparreal_os.Paging.Geometry.{GeometryLaws}
use sparreal_os.Paging.Geometry.Shifts.{add-aligned, sub-aligned}
use sparreal_os.Paging.Geometry.Slots.{slot, index, region, region-eq-slot, index_of_slot}
use sparreal_os.Paging.Map.{MapOptions, Round, map_range, next_iteration}
use sparreal_os.Paging.Map.Effect.{Effect, Effect-refl, Effect-trans, Effect-widen, Maps, Mapped}
use sparreal_os.Paging.Map.Entry.{Rounded, advanced, descended}
use sparreal_os.Paging.Map.Rounds.{map_round-Rounded}
use sparreal_os.Paging.Map.Tags.{Tags, Consistent}
use sparreal_os.Paging.Meta.{
  TableMeta, FrameAllocator, Machine, table_levels, page_size, EntryLaws, FrameLaws,
}
use sparreal_os.Paging.Translate.Lookup.{kind, pointer, lookup_pointer}

module _ (T : TableMeta) (A : FrameAllocator) (template : PteConfig) where
  -- What is mapped up to `mid` stays mapped while the rest is.
  join-Mapped :
      (live : A.State → PhysAddr → Bool) (level frame v mid e pa : ℕ) {m m' : Machine T A}
      {tag tag' : Tags}
      → level ≤ table_levels T
      → v ≤ mid
      → ((w : ℕ) → v ≤ w → w < mid → tag frame ≡ some (level, region T level w))
      → Mapped T A template m level frame v mid pa
      → Effect T A live level mid e m m' tag tag'
      → Mapped T A template m' level frame mid e (pa + (mid - v))
      → Mapped T A template m' level frame v e pa
  join-Mapped live level frame v mid e pa h le tagged before effect rest w lo hi =
      elim (Bool-cases (ltb w mid)) [
        | inl first ↦
            let lt = ltb→lt w mid first in
            let (x, found, maps) = before w lo lt in
            (
              x,
              effect.others w (λ in_range. omega arith) level frame h (tagged w lo lt) ∙ found,
              maps,
            )
        | inr second ↦
            let ge = ltb-false→le w mid second in
            let (x, found, maps) = rest w ge hi in
            let same : pa + (mid - v) + (w - mid) ≡ pa + (w - v) = omega arith in
            (x, found, subst (λ p. Maps T template w p x) same maps)
      ]

  -- A table maps what the table that an entry points at maps.
  lift-Mapped :
      (l frame child v next pa : ℕ) (m : Machine T A)
      → ((w : ℕ) → v ≤ w → w < next → slot T (suc l) w ≡ slot T (suc l) v)
      → kind T l (m.table frame (index T (suc l) v)) ≡ pointer child
      → Mapped T A template m l child v next pa
      → Mapped T A template m (suc l) frame v next pa
  lift-Mapped l frame child v next pa m inside points below w lo hi =
      let (x, found, maps) = below w lo hi in
      let here : kind T l (m.table frame (index T (suc l) w)) ≡ pointer child =
        ap (λ i. kind T l (m.table frame i)) (index_of_slot T (suc l) v w (inside w lo hi))
        ∙ points in
      (x, lookup_pointer T A m l frame w here ∙ found, maps)

module _ (T : TableMeta) (A : FrameAllocator) (o : MapOptions) (g : GeometryLaws T)
    (laws : EntryLaws T) (fl : FrameLaws T laws.phys_limit A) where
  -- What the loop is called with.
  pub record Ready (level frame v pa e : ℕ) (m : Machine T A) (tag : Tags) : Type 0 where
    pub consistent : Consistent T A fl.live m tag
    pub pos : 0 < level
    pub deep : level ≤ table_levels T
    pub tagged : (w : ℕ) → v ≤ w → w < e → tag frame ≡ some (level, region T level w)
    pub small : e < usize_mod
    pub v_aligned : v % page_size T ≡ 0
    pub pa_aligned : pa % page_size T ≡ 0
    pub e_aligned : e % page_size T ≡ 0
    pub phys_small : pa + (e - v) < usize_mod
    pub phys_fits : pa + (e - v) ≤ laws.phys_limit

  -- What it has done when it returns.
  pub record Done (level frame v pa e : ℕ) (m : Machine T A) (tag : Tags) (m' : Machine T A)
      : Type 0 where
    pub tag' : Tags
    pub effect : Effect T A fl.live level v e m m' tag tag'
    pub mapped : Mapped T A o.pte_template m' level frame v e pa

  abbrev Result :
      (level frame v pa e : ℕ)
      → Machine T A
      → Tags
      → Run PagingError (Machine T A) (Unit {0})
      → Type 0
  Result level frame v pa e m tag =
      Ensures (λ _. Done level frame v pa e m tag)
        (λ _ m'. (tag' : Tags) × Effect T A fl.live level v e m m' tag tag')

  -- The rest of the range is ready where the first part has been mapped.
  Ready-next :
      {level frame v pa e : ℕ} {m : Machine T A} {tag : Tags} (v' : ℕ) {m' : Machine T A}
      {tag' : Tags}
      → Ready level frame v pa e m tag
      → v ≤ v'
      → v' ≤ e
      → v' % page_size T ≡ 0
      → Effect T A fl.live level v e m m' tag tag'
      → Ready level frame v' (pa + (v' - v)) e m' tag'
  Ready-next {v} {pa} v' ready le fits aligned effect = record {
    consistent = effect.consistent;
    pos = ready.pos;
    deep = ready.deep;
    tagged = λ w lo hi. effect.tags _ (ready.tagged w (omega arith) hi);
    small = ready.small;
    v_aligned = aligned;
    pa_aligned =
        add-aligned pa (v' - v) (page_size T) ready.pa_aligned
          (sub-aligned v' v (page_size T) aligned ready.v_aligned le);
    e_aligned = ready.e_aligned;
    phys_small = omega (arith, ready.phys_small);
    phys_fits = omega (arith, ready.phys_fits);
  }

  -- The table below is ready for its part of the range.
  Ready-below :
      {l frame v pa e : ℕ} {m : Machine T A} {tag : Tags} (child next : ℕ) {m' : Machine T A}
      {tag' : Tags}
      → Ready (suc l) frame v pa e m tag
      → 0 < l
      → v < next
      → next ≤ e
      → next % page_size T ≡ 0
      → ((w : ℕ) → v ≤ w → w < next → slot T (suc l) w ≡ slot T (suc l) v)
      → Effect T A fl.live (suc l) v e m m' tag tag'
      → tag' child ≡ some (l, slot T (suc l) v)
      → Ready l child v pa next m' tag'
  Ready-below {l} child next ready pos lt fits aligned inside effect tagged = record {
    consistent = effect.consistent;
    pos = pos;
    deep = omega (arith, ready.deep);
    tagged = λ w lo hi.
        tagged ∙ ap (λ s. some (l, s)) (sym (region-eq-slot T l w pos ready.deep ∙ inside w lo hi));
    small = omega (arith, ready.small);
    v_aligned = ready.v_aligned;
    pa_aligned = ready.pa_aligned;
    e_aligned = aligned;
    phys_small = omega (arith, ready.phys_small);
    phys_fits = omega (arith, ready.phys_fits);
  }

  -- A first part that is mapped, and the rest of the loop.
  Done-join :
      {level frame v pa e : ℕ} {m : Machine T A} {tag : Tags} (v' : ℕ) {m' : Machine T A}
      {tag' : Tags} {run : Run PagingError (Machine T A) (Unit {0})}
      → Ready level frame v pa e m tag
      → v ≤ v'
      → v' ≤ e
      → Effect T A fl.live level v e m m' tag tag'
      → Mapped T A o.pte_template m' level frame v v' pa
      → Result level frame v' (pa + (v' - v)) e m' tag' run
      → Result level frame v pa e m tag run
  Done-join {level} {frame} {v} {pa} {e} v' {m'} {tag'} ready le fits effect mapped rest =
      mono rest
        (λ _ s done. record {
          tag' = done.tag';
          effect =
              Effect-trans T A fl.live effect
                (Effect-widen T A fl.live (omega arith) le (omega arith) done.effect);
          mapped =
              join-Mapped T A o.pte_template fl.live level frame v v' e pa ready.deep le
                (λ w lo hi. effect.tags frame (ready.tagged w lo (omega arith))) mapped done.effect
                done.mapped;
        })
        (λ _ s (tag'', failed). (
          tag'',
          Effect-trans T A fl.live effect
              (Effect-widen T A fl.live (omega arith) le (omega arith) failed),
        ))

  nothing :
      {level frame v pa e : ℕ} {m : Machine T A} {tag : Tags}
      → Ready level frame v pa e m tag
      → e ≤ v
      → Done level frame v pa e m tag m
  nothing {level} {frame} {v} {pa} {e} {tag = tag} ready le = record {
    tag' = tag;
    effect = Effect-refl T A fl.live level v e ready.consistent;
    mapped = λ w lo hi. absurd (omega arith);
  }

  -- An iteration, given that the rest of the loop and the table below do what they should.
  next_iteration-Done :
      (l frame v pa e : ℕ) (m : Machine T A) (tag : Tags)
      (again : ℕ → ℕ → Machine T A → Run PagingError (Machine T A) (Unit {0}))
      (below : ℕ → ℕ → Machine T A → Run PagingError (Machine T A) (Unit {0}))
      → Ready (suc l) frame v pa e m tag
      → ((v' pa' : ℕ) (s : Machine T A) (tag' : Tags)
          → v < v'
          → Ready (suc l) frame v' pa' e s tag'
          → Result (suc l) frame v' pa' e s tag' (again v' pa' s))
      → ((child next : ℕ) (s : Machine T A) (tag' : Tags)
          → Ready l child v pa next s tag'
          → Result l child v pa next s tag' (below child next s))
      → (round : Round) (s : Machine T A) → Rounded T A o fl.live l frame v pa e m tag round s
      → Result (suc l) frame v pa e m tag (next_iteration T A o again below v pa round s)
  unfolding next_iteration checked
  next_iteration-Done l frame v pa e m tag again below ready ih ih' _ s
        (advanced {v'} lt fits aligned moved effect mapped) =
      let ready' = Ready-next v' ready (omega arith) fits aligned effect in
      rw moved (
        Done-join v' ready (omega arith) fits effect mapped (ih v' (pa + (v' - v)) s tag lt ready'))
  next_iteration-Done l frame v pa e m tag again below ready ih ih' _ s
        (descended {child} {next} tag' pos lt fits aligned inside effect tagged points) =
      let ready' = Ready-below child next ready pos lt fits aligned inside effect tagged in
      bind (ih' child next s tag' ready')
        (λ _ s' done.
          let effect' =
            Effect-trans T A fl.live effect
              (Effect-widen T A fl.live (omega arith) (omega arith) fits done.effect) in
          let known = effect.tags frame (ready.tagged v (omega arith) (omega arith)) in
          let same = done.effect.above frame (suc l) _ (index T (suc l) v) known (omega arith) in
          let mapped =
            lift-Mapped T A o.pte_template l frame child v next pa s' inside
              (ap (kind T l) same ∙ points) done.mapped in
          let rest =
            ih next (pa + (next - v)) s' done.tag' lt
              (Ready-next next ready (omega arith) fits aligned effect') in
          rw (lt→ltb (pa + (next - v)) usize_mod (omega (arith, ready.phys_small)))
            (Done-join next ready (omega arith) fits effect' mapped rest))
        (λ _ s' (tag'', failed). (
          tag'',
          Effect-trans T A fl.live effect
              (Effect-widen T A fl.live (omega arith) (omega arith) fits failed),
        ))

  pub map_range-Done :
      (level rounds frame v pa e : ℕ) (m : Machine T A) (tag : Tags)
      → Ready level frame v pa e m tag
      → e - v ≤ rounds
      → Result level frame v pa e m tag (map_range T A o level rounds frame v pa e m)
  unfolding map_range
  map_range-Done zero rounds frame v pa e m tag ready enough = absurd (omega (arith, ready.pos))
  map_range-Done (suc l) zero frame v pa e m tag ready enough =
      let stop : ltb v e ≡ false = ground arith in
      rw (stop, map_range) (returns (nothing ready (ltb-false→le v e stop)))
  map_range-Done (suc l) (suc rounds) frame v pa e m tag ready enough =
      elim (Bool-cases (ltb v e)) [
        | inr stop ↦ rw (stop, map_range) (returns (nothing ready (ltb-false→le v e stop)))
        | inl more ↦
            let lt = ltb→lt v e more in
            rw (more, map_range)
              (bind
                (map_round-Rounded T A o g laws fl l frame v pa e m tag ready.consistent ready.deep
                  (ready.tagged v (omega arith) lt) lt ready.small ready.v_aligned ready.pa_aligned
                  ready.e_aligned ready.phys_small ready.phys_fits)
                (next_iteration-Done l frame v pa e m tag _ _ ready
                  (λ v' pa' s tag' later ready'.
                    map_range-Done (suc l) rounds frame v' pa' e s tag' ready' (omega arith))
                  (λ child next s tag' ready'.
                    map_range-Done l (next - v) child v pa next s tag' ready' (omega arith)))
                (λ error s failed. failed))
      ]

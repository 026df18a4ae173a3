-- ===== src/Gic/Distributor/Triggers.antt =====
-- How an interrupt is triggered, and the group of an interrupt, in registers with a field for each of
-- several interrupts.
use sparreal_os.Prelude.{
  ℕ, ◌+◌, ◌-◌, ◌*◌, ◌/◌, ◌%◌, ◌^◌, ◌<◌, ◌≡◌, ◌≢◌, lt→ltb, refl, sym, ap, ◌∙◌, Bool, true, false,
  not, ◌==◌, ==_self, if◌then◌else◌, bit_and, bit_or, arith, Bool-cases, inl, inr,
}
use sparreal_os.Prelude.BitAt.{
  bit_at, bit_at-bit_and, bit_at-bit_or, bit_at-pow, bit_at-hole, bit_and-pow, bit_or-lt,
  bit_and-lt, pow_mono,
}
use sparreal_os.Prelude.Bits.{pow-pos}
use sparreal_os.Prelude.Outcome.{Run, ok}
use sparreal_os.Gic.Ids.{IntId, Trigger, edge, level}
use sparreal_os.Gic.Distributor.{set_cfg, get_cfg, trigger_of, set_interrupt_group1}
use sparreal_os.Gic.Distributor.Bits.{get_register_lem, same_cfg}
use sparreal_os.Gic.Distributor.Fills.{set_register_lem}
use sparreal_os.Gic.Registers.{
  Device, DeviceLaws, bank_len, set_irq_bit, clear_irq_bit, igroupr, icfgr, igroupr_holds,
  icfgr_holds,
}

module _ (D : Device) (laws : DeviceLaws D) where
  -- The bit of `ICFGR` that tells how an interrupt is triggered.
  abbrev is_edge : D.State → IntId → Bool
  is_edge s j = bit_at (D.read icfgr (j / 16) s) (j % 16 * 2 + 1)

  get_cfg_lem :
      (j : IntId) (s : D.State) → j < 1024 → get_cfg D j s ≡ ok (trigger_of (is_edge s j)) s
  unfolding get_cfg bank_len
  get_cfg_lem j s h =
      rw
        (
          get_register_lem D icfgr (j / 16) s (omega arith),
          bit_and-pow (j % 16 * 2 + 1) (D.read icfgr (j / 16) s),
        )
        refl

  new_cfg : IntId → Trigger → ℕ → ℕ
  new_cfg id level current = bit_and current (0xffff_ffff - 2 ^ (id % 16 * 2 + 1))
  new_cfg id edge current = bit_or current (2 ^ (id % 16 * 2 + 1))

  set_cfg_lem :
      (id : IntId) (t : Trigger) (s : D.State)
      → id < 1024
      → set_cfg D id t s
        ≡ ok tt (D.write icfgr (id / 16) (new_cfg id t (D.read icfgr (id / 16) s)) s)
  unfolding set_cfg bank_len new_cfg
  set_cfg_lem id edge s h =
      rw (get_register_lem D icfgr (id / 16) s (omega arith))
        (set_register_lem D icfgr (id / 16) _ s (omega arith))
  set_cfg_lem id level s h =
      rw (get_register_lem D icfgr (id / 16) s (omega arith))
        (set_register_lem D icfgr (id / 16) _ s (omega arith))

  bit-new_cfg :
      (id k : ℕ) (t : Trigger) (current : ℕ)
      → k < 32
      → trigger_of (bit_at (new_cfg id t current) k)
        ≡ (if k == id % 16 * 2 + 1 then t else trigger_of (bit_at current k))
  unfolding new_cfg trigger_of
  bit-new_cfg id k edge current h =
      rw (bit_at-bit_or k current (2 ^ (id % 16 * 2 + 1)), bit_at-pow k (id % 16 * 2 + 1))
        (ground arith)
  bit-new_cfg id k level current h =
      rw
        (
          bit_at-bit_and k current (0xffff_ffff - 2 ^ (id % 16 * 2 + 1)),
          bit_at-hole k (id % 16 * 2 + 1) 32 (omega arith),
        )
        (ground arith)

  -- `v` is a word that differs from what the register of an interrupt reads at the trigger of this
  -- interrupt only.
  abbrev pub Retriggers : IntId → D.State → ℕ → Type 0
  Retriggers id s v =
      (v < 2 ^ 32)
      × ((k : ℕ) → k < 32 → k ≢ id % 16 * 2 + 1 → bit_at v k ≡ bit_at (D.read icfgr (id / 16) s) k)

  new_cfg-Retriggers :
      (id : IntId) (t : Trigger) (s : D.State)
      → Retriggers id s (new_cfg id t (D.read icfgr (id / 16) s))
  unfolding new_cfg
  new_cfg-Retriggers id edge s =
      let current = D.read icfgr (id / 16) s in
      let b = id % 16 * 2 + 1 in
      (
        bit_or-lt 32 current (2 ^ b) (laws.read_lt icfgr (id / 16) s)
            (omega (arith, pow_mono b 32 (omega arith), pow-pos b)),
        λ k h ne.
            let other : (k == b) ≡ false = ground arith in
            rw (bit_at-bit_or k current (2 ^ b), bit_at-pow k b, other) (ground arith),
      )
  new_cfg-Retriggers id level s =
      let current = D.read icfgr (id / 16) s in
      let b = id % 16 * 2 + 1 in
      (
        bit_and-lt 32 current (0xffff_ffff - 2 ^ b) (omega arith),
        λ k h ne.
            let other : (k == b) ≡ false = ground arith in
            rw
              (
                bit_at-bit_and k current (0xffff_ffff - 2 ^ b),
                bit_at-hole k b 32 (omega arith),
                other,
                lt→ltb k 32 h,
              )
              (ground arith),
      )

  trigger_after :
      (id : IntId) (t : Trigger) (s : D.State) (j : IntId)
      → ((v : ℕ) → Retriggers id s v → laws.keeps icfgr (id / 16) v ≡ true)
      → let s' = D.write icfgr (id / 16) (new_cfg id t (D.read icfgr (id / 16) s)) s in
        trigger_of (is_edge s' j) ≡ (if j == id then t else trigger_of (is_edge s j))
  trigger_after id t s j keeps =
      let new = new_cfg id t (D.read icfgr (id / 16) s) in
      elim (Bool-cases (j / 16 == id / 16)) [
        | inl same ↦
            let e : j / 16 ≡ id / 16 = ground arith in
            rw
              (
                e,
                laws.read_self icfgr (id / 16) new s icfgr_holds
                    (keeps new (new_cfg-Retriggers id t s)),
                bit-new_cfg id (j % 16 * 2 + 1) t (D.read icfgr (id / 16) s) (omega arith),
                same_cfg j id e,
              )
              refl
        | inr other ↦
            let ne : ¬ (id / 16 ≡ j / 16) = λ e. ground arith in
            let out : (j == id) ≡ false = ground arith in
            rw
              (
                out,
                laws.read_other icfgr icfgr (j / 16) (id / 16) new s icfgr_holds (λ (_, e). ne e),
              )
              refl
      ]

  ok_eq : {s : D.State} {a b : Trigger} → ◌≡◌ {A = Run ⊥ D.State Trigger} (ok a s) (ok b s) → a ≡ b
  ok_eq h = cc

  -- `set_cfg` on an interrupt below 1024 does not panic, where its trigger can be configured: where
  -- its register implements the values that differ from what it reads at this trigger only. `get_cfg`
  -- then answers the new trigger for this interrupt and what it answered before for every other
  -- below 1024.
  pub set_cfg-get_cfg :
      (id : IntId) (t : Trigger) (s : D.State)
      → id < 1024
      → ((v : ℕ) → Retriggers id s v → laws.keeps icfgr (id / 16) v ≡ true)
      → (s' : D.State) × (set_cfg D id t s ≡ ok tt s')
        × ((j : IntId) (c : Trigger)
            → j < 1024
            → get_cfg D j s ≡ ok c s
            → get_cfg D j s' ≡ ok (if j == id then t else c) s')
  set_cfg-get_cfg id t s h keeps =
      let s' = D.write icfgr (id / 16) (new_cfg id t (D.read icfgr (id / 16) s)) s in
      (
        s',
        set_cfg_lem id t s h,
        λ j c hj was.
            let now : trigger_of (is_edge s j) ≡ c = ok_eq (sym (get_cfg_lem j s hj) ∙ was) in
            get_cfg_lem j s' hj ∙ ap (λ x. ok x s') (trigger_after id t s j keeps ∙ rw now refl),
      )

  -- The bit of `IGROUPR` that puts an interrupt in group 1.
  abbrev pub in_group1 : D.State → IntId → Bool
  in_group1 s j = bit_at (D.read igroupr (j / 32) s) (j % 32)

  -- What `set_interrupt_group1` makes of the group of another interrupt.
  abbrev pub group_after : IntId → Bool → D.State → IntId → Bool
  group_after id true s j = if j / 32 == id / 32 then j == id else in_group1 s j
  group_after id false s j = if j == id then false else in_group1 s j

  write_group :
      (id v : ℕ) (s : D.State) (j : IntId)
      → laws.keeps igroupr (id / 32) v ≡ true
      → in_group1 (D.write igroupr (id / 32) v s) j
        ≡ (if j / 32 == id / 32 then bit_at v (j % 32) else in_group1 s j)
  write_group id v s j keeps = elim (Bool-cases (j / 32 == id / 32)) [
    | inl same ↦
        let e : j / 32 ≡ id / 32 = ground arith in
        rw (e, laws.read_self igroupr (id / 32) v s igroupr_holds keeps, ==_self (id / 32)) refl
    | inr other ↦
        let ne : ¬ (id / 32 ≡ j / 32) = λ e. ground arith in
        rw
          (
            other,
            laws.read_other igroupr igroupr (j / 32) (id / 32) v s igroupr_holds (λ (_, e). ne e),
          )
          refl
  ]

  cleared_group :
      (id : IntId) (s : D.State) (j : IntId)
      → ((v : ℕ) → v < 2 ^ 32 → laws.keeps igroupr (id / 32) v ≡ true)
      → in_group1
          (D.write igroupr
            (id / 32)
            (bit_and (D.read igroupr (id / 32) s) (0xffff_ffff - 2 ^ (id % 32)))
            s)
          j
        ≡ group_after id false s j
  cleared_group id s j keeps =
      write_group id _ s j (keeps _ (bit_and-lt 32 _ _ (omega arith)))
      ∙ rw
          (
            bit_at-bit_and (j % 32) (D.read igroupr (id / 32) s) (0xffff_ffff - 2 ^ (id % 32)),
            bit_at-hole (j % 32) (id % 32) 32 (omega arith),
          )
          (ground arith)

  -- `set_interrupt_group1` on an interrupt below 1024, where its register implements every value
  -- of 32 bits, does not panic. Set, it puts the interrupt in group 1 and every other interrupt of
  -- the same register in group 0; cleared, it puts the interrupt in group 0 and leaves the others.
  pub set_interrupt_group1_lem :
      (id : IntId) (group1 : Bool) (s : D.State)
      → id < 1024
      → ((v : ℕ) → v < 2 ^ 32 → laws.keeps igroupr (id / 32) v ≡ true)
      → (s' : D.State) × (set_interrupt_group1 D id group1 s ≡ ok tt s')
        × ((j : IntId) → in_group1 s' j ≡ group_after id group1 s j)
  unfolding set_interrupt_group1 set_irq_bit clear_irq_bit bank_len
  set_interrupt_group1_lem id true s h keeps = (
    D.write igroupr (id / 32) (2 ^ (id % 32)) s,
    set_register_lem D igroupr (id / 32) (2 ^ (id % 32)) s (omega arith),
    λ j.
        write_group id (2 ^ (id % 32)) s j
          (keeps _ (omega (arith, pow_mono (id % 32) 32 (omega arith), pow-pos (id % 32))))
        ∙ rw (bit_at-pow (j % 32) (id % 32)) (ground arith),
  )
  set_interrupt_group1_lem id false s h keeps =
      let old = D.read igroupr (id / 32) s in
      let got = get_register_lem D igroupr (id / 32) s (omega arith) in
      elim (Bool-cases (bit_and old (2 ^ (id % 32)) == 0)) [
        | inl clear ↦
            let off : false ≡ in_group1 s id = ap not (sym clear) ∙ bit_and-pow (id % 32) old in
            (s, rw (got, clear) refl, λ j. unchanged j off)
        | inr set ↦ (
          D.write igroupr (id / 32) (bit_and old (0xffff_ffff - 2 ^ (id % 32))) s,
          rw (got, set) (set_register_lem D igroupr (id / 32) _ s (omega arith)),
          λ j. cleared_group id s j keeps,
        )
      ]
    where
      unchanged : (j : IntId) → false ≡ in_group1 s id → in_group1 s j ≡ group_after id false s j
      unchanged j off = elim (Bool-cases (j == id)) [
        | inl same ↦ let e : j ≡ id = ground arith in rw (e, ==_self id) (sym off)
        | inr other ↦ rw other refl
      ]

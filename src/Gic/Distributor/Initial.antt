-- ===== src/Gic/Distributor/Initial.antt =====
-- The registers after `Gic::init`.
use sparreal_os.Prelude.{
  ℕ, ◌+◌, ◌-◌, ◌*◌, ◌/◌, ◌^◌, ◌≤◌, ◌<◌, ◌≡◌, ◌≢◌, ap, ◌∙◌, true, false, arith, inl, inr, ◌⊎◌,
}
use sparreal_os.Prelude.Fields.{field}
use sparreal_os.Gic.Distributor.Fills.{
  after_fill, after_fill_other, after_fill_self, after_fill_status, after_fill_clear,
}
use sparreal_os.Gic.Distributor.Init.{words, loops, group_write}
use sparreal_os.Gic.Registers.{
  Device, DeviceLaws, Bank, ctlr, igroupr, icenabler, icpendr, icactiver, ipriorityr, itargetsr,
  icfgr, Status, enabled, pending, active, Holds, ctlr_holds, igroupr_holds, ipriorityr_holds,
  itargetsr_holds, icfgr_holds,
}

module _ (D : Device) (laws : DeviceLaws D) where
  -- The loops of `init` on each array of registers.
  module _ (n : ℕ) (s : D.State) where
    abbrev pub end : D.State
    end = loops D n s

    pub loops_quiet :
        (st : Status) (id : ℕ)
        → laws.writable st id ≡ true
        → id < n * 32
        → laws.on st id end ≡ false
    unfolding loops
    loops_quiet enabled id can h =
        after_fill_status D laws enabled icfgr _ _ _ id _ (λ e. cc) (λ e. cc) (λ e. cc)
        ∙ after_fill_status D laws enabled itargetsr _ _ _ id _ (λ e. cc) (λ e. cc) (λ e. cc)
        ∙ after_fill_status D laws enabled ipriorityr _ _ _ id _ (λ e. cc) (λ e. cc) (λ e. cc)
        ∙ after_fill_status D laws enabled igroupr _ _ _ id _ (λ e. cc) (λ e. cc) (λ e. cc)
        ∙ after_fill_status D laws enabled icactiver _ _ _ id _ (λ e. cc) (λ e. cc) (λ e. cc)
        ∙ after_fill_status D laws enabled icpendr _ _ _ id _ (λ e. cc) (λ e. cc) (λ e. cc)
        ∙ after_fill_clear D laws enabled 0 n id s can (omega arith) (omega arith)
    loops_quiet pending id can h =
        after_fill_status D laws pending icfgr _ _ _ id _ (λ e. cc) (λ e. cc) (λ e. cc)
        ∙ after_fill_status D laws pending itargetsr _ _ _ id _ (λ e. cc) (λ e. cc) (λ e. cc)
        ∙ after_fill_status D laws pending ipriorityr _ _ _ id _ (λ e. cc) (λ e. cc) (λ e. cc)
        ∙ after_fill_status D laws pending igroupr _ _ _ id _ (λ e. cc) (λ e. cc) (λ e. cc)
        ∙ after_fill_status D laws pending icactiver _ _ _ id _ (λ e. cc) (λ e. cc) (λ e. cc)
        ∙ after_fill_clear D laws pending 0 n id _ can (omega arith) (omega arith)
    loops_quiet active id can h =
        after_fill_status D laws active icfgr _ _ _ id _ (λ e. cc) (λ e. cc) (λ e. cc)
        ∙ after_fill_status D laws active itargetsr _ _ _ id _ (λ e. cc) (λ e. cc) (λ e. cc)
        ∙ after_fill_status D laws active ipriorityr _ _ _ id _ (λ e. cc) (λ e. cc) (λ e. cc)
        ∙ after_fill_status D laws active igroupr _ _ _ id _ (λ e. cc) (λ e. cc) (λ e. cc)
        ∙ after_fill_clear D laws active 0 n id _ can (omega arith) (omega arith)

    -- The loops that switch a status off leave the registers that hold their values.
    cleared_kept :
        (b : Bank) (i : ℕ)
        → Holds b
        → icactiver ≢ b
        → icpendr ≢ b
        → icenabler ≢ b
        → D.read b i (
            after_fill D icactiver 0xffff_ffff 0 n
              (after_fill D icpendr 0xffff_ffff 0 n (after_fill D icenabler 0xffff_ffff 0 n s)))
          ≡ D.read b i s
    cleared_kept b i holds ne₁ ne₂ ne₃ =
        after_fill_other D laws b icactiver _ _ _ i _ holds (inl ne₁)
        ∙ after_fill_other D laws b icpendr _ _ _ i _ holds (inl ne₂)
        ∙ after_fill_other D laws b icenabler _ _ _ i _ holds (inl ne₃)

    pub loops_ctlr : D.read ctlr 0 end ≡ D.read ctlr 0 s
    unfolding loops
    loops_ctlr =
        after_fill_other D laws ctlr icfgr _ _ _ 0 _ ctlr_holds (inl (λ e. cc))
        ∙ after_fill_other D laws ctlr itargetsr _ _ _ 0 _ ctlr_holds (inl (λ e. cc))
        ∙ after_fill_other D laws ctlr ipriorityr _ _ _ 0 _ ctlr_holds (inl (λ e. cc))
        ∙ after_fill_other D laws ctlr igroupr _ _ _ 0 _ ctlr_holds (inl (λ e. cc))
        ∙ cleared_kept ctlr 0 ctlr_holds (λ e. cc) (λ e. cc) (λ e. cc)

    pub loops_groups : (i : ℕ) → i < n → laws.keeps igroupr i 0 ≡ true → D.read igroupr i end ≡ 0
    unfolding loops
    loops_groups i h keeps =
        after_fill_other D laws igroupr icfgr _ _ _ i _ igroupr_holds (inl (λ e. cc))
        ∙ after_fill_other D laws igroupr itargetsr _ _ _ i _ igroupr_holds (inl (λ e. cc))
        ∙ after_fill_other D laws igroupr ipriorityr _ _ _ i _ igroupr_holds (inl (λ e. cc))
        ∙ after_fill_self D laws igroupr 0 0 n i _ igroupr_holds keeps (omega arith) (omega arith)

    pub loops_levels : (i : ℕ) → i < n * 2 → laws.keeps icfgr i 0 ≡ true → D.read icfgr i end ≡ 0
    unfolding loops
    loops_levels i h keeps =
        after_fill_self D laws icfgr 0 0 (n * 2) i _ icfgr_holds keeps (omega arith) (omega arith)

    module _ (i : ℕ) where
      pub loops_priority :
          32 ≤ i → i < n * 8 → laws.keeps ipriorityr i 0xa0 ≡ true → D.read ipriorityr i end ≡ 0xa0
      unfolding loops
      loops_priority low high keeps =
          after_fill_other D laws ipriorityr icfgr _ _ _ i _ ipriorityr_holds (inl (λ e. cc))
          ∙ after_fill_other D laws ipriorityr itargetsr _ _ _ i _ ipriorityr_holds (inl (λ e. cc))
          ∙ after_fill_self D laws ipriorityr 0xa0 32 (n * 8 - 32) i _ ipriorityr_holds keeps low
              (omega arith)

      pub loops_priority_kept :
          (i < 32) ⊎ (32 + (n * 8 - 32) ≤ i) → D.read ipriorityr i end ≡ D.read ipriorityr i s
      unfolding loops
      loops_priority_kept out =
          after_fill_other D laws ipriorityr icfgr _ _ _ i _ ipriorityr_holds (inl (λ e. cc))
          ∙ after_fill_other D laws ipriorityr itargetsr _ _ _ i _ ipriorityr_holds (inl (λ e. cc))
          ∙ after_fill_other D laws ipriorityr ipriorityr 0xa0 32 (n * 8 - 32) i _ ipriorityr_holds
              (inr out)
          ∙ after_fill_other D laws ipriorityr igroupr _ _ _ i _ ipriorityr_holds (inl (λ e. cc))
          ∙ cleared_kept ipriorityr i ipriorityr_holds (λ e. cc) (λ e. cc) (λ e. cc)

      pub loops_target :
          8 ≤ i → i < 8 + (n - 1) * 8 → laws.keeps itargetsr i 1 ≡ true → D.read itargetsr i end ≡ 1
      unfolding loops
      loops_target low high keeps =
          after_fill_other D laws itargetsr icfgr _ _ _ i _ itargetsr_holds (inl (λ e. cc))
          ∙ after_fill_self D laws itargetsr 1 8 ((n - 1) * 8) i _ itargetsr_holds keeps low high

      pub loops_target_kept :
          (i < 8) ⊎ (8 + (n - 1) * 8 ≤ i) → D.read itargetsr i end ≡ D.read itargetsr i s
      unfolding loops
      loops_target_kept out =
          after_fill_other D laws itargetsr icfgr _ _ _ i _ itargetsr_holds (inl (λ e. cc))
          ∙ after_fill_other D laws itargetsr itargetsr 1 8 ((n - 1) * 8) i _ itargetsr_holds
              (inr out)
          ∙ after_fill_other D laws itargetsr ipriorityr _ _ _ i _ itargetsr_holds (inl (λ e. cc))
          ∙ after_fill_other D laws itargetsr igroupr _ _ _ i _ itargetsr_holds (inl (λ e. cc))
          ∙ cleared_kept itargetsr i itargetsr_holds (λ e. cc) (λ e. cc) (λ e. cc)

  -- `s'` is the device `s` after `init`, with `n` groups of 32 interrupts.
  pub record Initial (s s' : D.State) : Type 0 where
    -- No interrupt is enabled, pending or active, as far as software can switch that off.
    pub quiet :
        (st : Status) (id : ℕ)
        → laws.writable st id ≡ true
        → id < words D s * 32
        → laws.on st id s' ≡ false
    -- Every interrupt is in group 0 and level triggered.
    pub groups : (i : ℕ) → i < words D s → laws.keeps igroupr i 0 ≡ true → D.read igroupr i s' ≡ 0
    pub levels : (i : ℕ) → i < words D s * 2 → laws.keeps icfgr i 0 ≡ true → D.read icfgr i s' ≡ 0
    -- The registers from 32 up to a quarter of the interrupts have the default priority, and no
    -- others are written.
    pub priorities :
        (i : ℕ)
        → 32 ≤ i
        → i < words D s * 8
        → laws.keeps ipriorityr i 0xa0 ≡ true
        → D.read ipriorityr i s' ≡ 0xa0
    pub priorities_kept :
        (i : ℕ) → (i < 32) ⊎ (words D s * 8 ≤ i) → D.read ipriorityr i s' ≡ D.read ipriorityr i s
    -- The registers from 8 up to a quarter of the interrupts target the processor 0, and no others
    -- are written.
    pub targets :
        (i : ℕ)
        → 8 ≤ i
        → i < words D s * 8
        → laws.keeps itargetsr i 1 ≡ true
        → D.read itargetsr i s' ≡ 1
    pub targets_kept :
        (i : ℕ) → (i < 8) ⊎ (words D s * 8 ≤ i) → D.read itargetsr i s' ≡ D.read itargetsr i s
    -- The distributor forwards both groups, if CTLR implements the two lowest bits, where its other
    -- bits are written as they were read.
    pub forwards :
        ((v : ℕ) → v < 2 ^ 32 → v / 4 ≡ D.read ctlr 0 s / 4 → laws.keeps ctlr 0 v ≡ true)
        → D.read ctlr 0 s' ≡ D.read ctlr 0 s / 4 * 4 + 3

  -- The writes of `CTLR` around the loops.
  pub group_write_status :
      (st : Status) (groups id : ℕ) (s : D.State)
      → laws.on st id (group_write D groups s) ≡ laws.on st id s
  unfolding group_write
  group_write_status enabled groups id s =
      laws.write_other enabled ctlr 0 _ id s (λ e. cc) (λ e. cc) (λ e. cc)
  group_write_status pending groups id s =
      laws.write_other pending ctlr 0 _ id s (λ e. cc) (λ e. cc) (λ e. cc)
  group_write_status active groups id s =
      laws.write_other active ctlr 0 _ id s (λ e. cc) (λ e. cc) (λ e. cc)

  pub group_write_kept :
      (b : Bank) (groups i : ℕ) (s : D.State)
      → Holds b
      → ctlr ≢ b
      → D.read b i (group_write D groups s) ≡ D.read b i s
  unfolding group_write
  group_write_kept b groups i s holds ne = laws.read_other b ctlr i 0 _ s holds (λ (e, _). ne e)

  pub group_write_self :
      (groups : ℕ) (s : D.State)
      → laws.keeps ctlr 0 (D.read ctlr 0 s / 4 * 4 + groups) ≡ true
      → D.read ctlr 0 (group_write D groups s) ≡ D.read ctlr 0 s / 4 * 4 + groups
  unfolding group_write
  group_write_self groups s keeps =
      laws.read_self ctlr 0 (D.read ctlr 0 s / 4 * 4 + groups) s ctlr_holds keeps

  pub words-group_write : (groups : ℕ) (s : D.State) → words D (group_write D groups s) ≡ words D s
  unfolding group_write
  words-group_write groups s = ap (λ v. field v 0 5 + 1) (laws.read_typer ctlr 0 _ s)

-- ===== src/Gic/Distributor/Init.antt =====
-- `Gic::init`: what it leaves in the registers of the distributor.
use sparreal_os.Prelude.{
  ℕ, zero, suc, ◌+◌, ◌-◌, ◌*◌, ◌/◌, ◌≤◌, ◌<◌, ◌≡◌, refl, false, arith, leb, min,
}
use sparreal_os.Prelude.Fields.{field}
use sparreal_os.Prelude.Outcome.{ok}
use sparreal_os.Gic.Distributor.{
  init, disable, enable, modify_groups, max_spi_num, clear_all, groups_all_to_0,
  set_default_spi_priorities, configure_interrupt_targets, configure_interrupt_config, div_ceil,
}
use sparreal_os.Gic.Distributor.Fills.{after_fill, fill-after_fill, set_register_lem}
use sparreal_os.Gic.Registers.{
  Device, ctlr, typer, igroupr, icenabler, icpendr, icactiver, ipriorityr, itargetsr, icfgr,
  bank_len, get_register, Status, enabled, pending, active, clear_bank,
}

module _ (D : Device) where
  -- The number of groups of 32 interrupts that the device has.
  abbrev pub words : D.State → ℕ
  words s = field (D.read typer 0 s) 0 5 + 1

  words-le : (s : D.State) → words s ≤ 32
  unfolding field
  words-le s = omega arith

  unfoldable pub group_write : ℕ → D.State → D.State
  group_write groups s = D.write ctlr 0 (D.read ctlr 0 s / 4 * 4 + groups) s

  modify_groups_lem :
      (groups : ℕ) (s : D.State) → modify_groups D groups s ≡ ok tt (group_write groups s)
  unfolding modify_groups get_register bank_len group_write
  modify_groups_lem groups s =
      set_register_lem D ctlr 0 (D.read ctlr 0 s / 4 * 4 + groups) s (omega arith)

  max_spi_num_lem : (s : D.State) → max_spi_num D s ≡ ok (words s * 32) s
  unfolding max_spi_num get_register bank_len
  max_spi_num_lem s = refl

  -- The loops of `init` for `n` groups of 32 interrupts.
  unfoldable pub loops : ℕ → D.State → D.State
  loops n s = after_fill D icfgr 0 0 (n * 2) (
      after_fill D itargetsr 1 8 ((n - 1) * 8) (
        after_fill D ipriorityr 0xa0 32 (n * 8 - 32) (
          after_fill D igroupr 0 0 n (
            after_fill D icactiver 0xffff_ffff 0 n
              (after_fill D icpendr 0xffff_ffff 0 n (after_fill D icenabler 0xffff_ffff 0 n s))))))

  module _ (n : ℕ) (pos : 0 < n) (h : n ≤ 32) where
    clear_all_lem :
        (st : Status) (s : D.State)
        → bank_len (clear_bank st) ≡ 32
        → clear_all D st (n * 32) s ≡ ok tt (after_fill D (clear_bank st) 0xffff_ffff 0 n s)
    unfolding clear_all div_ceil
    clear_all_lem st s len =
        let count : min ((n * 32 + 32 - 1) / 32) (bank_len (clear_bank st)) ≡ n = omega arith in
        rw count (fill-after_fill D (clear_bank st) 0xffff_ffff 0 n s (omega arith))

    groups_lem : (s : D.State) → groups_all_to_0 D (n * 32) s ≡ ok tt (after_fill D igroupr 0 0 n s)
    unfolding groups_all_to_0 div_ceil bank_len
    groups_lem s =
        let count : min ((n * 32 + 32 - 1) / 32) 32 ≡ n = omega arith in
        rw count (fill-after_fill D igroupr 0 0 n s (omega arith))

    priorities_lem :
        (s : D.State)
        → set_default_spi_priorities D (n * 32) s
          ≡ ok tt (after_fill D ipriorityr 0xa0 32 (n * 8 - 32) s)
    unfolding set_default_spi_priorities div_ceil bank_len
    priorities_lem s =
        let count : min ((n * 32 + 4 - 1) / 4) 1024 - 32 ≡ n * 8 - 32 = omega arith in
        rw count (fill-after_fill D ipriorityr 0xa0 32 (n * 8 - 32) s (omega arith))

    config_lem :
        (s : D.State)
        → configure_interrupt_config D (n * 32) s ≡ ok tt (after_fill D icfgr 0 0 (n * 2) s)
    unfolding configure_interrupt_config div_ceil bank_len
    config_lem s =
        let count : min ((n * 32 + 16 - 1) / 16) 64 ≡ n * 2 = omega arith in
        rw count (fill-after_fill D icfgr 0 0 (n * 2) s (omega arith))

  targets_lem :
      (n : ℕ) (s : D.State)
      → 0 < n
      → n ≤ 32
      → configure_interrupt_targets D (n * 32) s
        ≡ ok tt (after_fill D itargetsr 1 8 ((n - 1) * 8) s)
  unfolding configure_interrupt_targets div_ceil bank_len after_fill
  targets_lem zero s pos h = absurd (omega arith)
  targets_lem (suc zero) s pos h = refl
  targets_lem (suc (suc n)) s pos h =
      let more : leb (suc (suc n) * 32) 32 ≡ false = ground arith in
      let count : min (8 + (suc (suc n) * 32 - 32 + 4 - 1) / 4) 1024 - 8 ≡ (suc (suc n) - 1) * 8 =
        omega arith in
      rw (more, count) (fill-after_fill D itargetsr 1 8 ((suc (suc n) - 1) * 8) s (omega arith))

  pub init-loops :
      (s : D.State)
      → let s1 = group_write 0 s in init D s ≡ ok tt (group_write 3 (loops (words s1) s1))
  unfolding init disable enable loops bank_len
  init-loops s =
      let s1 = group_write 0 s in
      let n = words s1 in
      let pos : 0 < n = omega arith in
      let h : n ≤ 32 = words-le s1 in
      rw
        (
          modify_groups_lem,
          max_spi_num_lem s1,
          λ (t : D.State). clear_all_lem n pos h enabled t refl,
          λ (t : D.State). clear_all_lem n pos h pending t refl,
          λ (t : D.State). clear_all_lem n pos h active t refl,
          groups_lem n pos h,
          priorities_lem n pos h,
          λ (t : D.State). targets_lem n t pos h,
          config_lem n pos h,
        )
        (modify_groups_lem 3 _)

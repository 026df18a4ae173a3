-- ===== src/Gic/Distributor.antt =====
-- driver/intc/gic/src/version/v2/gicd.rs and v2/mod.rs: the operations of the distributor.
pub mod Fills
pub mod Init
pub mod Initial
pub mod Start
pub mod Bits
pub mod Switches
pub mod Triggers
use sparreal_os.Prelude.{
  ℕ, zero, suc, ◌+◌, ◌-◌, ◌*◌, ◌/◌, ◌%◌, ◌^◌, Bool, true, false, not, ltb, leb, ◌==◌, if◌then◌else◌,
  bit_and, bit_or, min,
}
use sparreal_os.Prelude.Fields.{field}
use sparreal_os.Prelude.Outcome.{Run, ok, require, pure, ◌>>=◌, ◌>>◌}
use sparreal_os.Gic.Ids.{IntId, Trigger, edge, level, is_private}
use sparreal_os.Gic.Registers.{
  Device, M, Bank, ctlr, typer, igroupr, icenabler, icpendr, icactiver, ipriorityr, itargetsr,
  icfgr, bank_len, Status, enabled, pending, active, set_bank, clear_bank, get_register,
  set_register, set_irq_bit, clear_irq_bit, get_irq_bit, fill,
}

unfoldable pub div_ceil : ℕ → ℕ → ℕ
div_ceil a b = (a + b - 1) / b

unfoldable pub trigger_of : Bool → Trigger
trigger_of true = edge
trigger_of false = level

module _ (D : Device) where
  -- `CTLR.modify` of `EnableGrp0` and `EnableGrp1`, the two lowest bits.
  pub modify_groups : ℕ → M D (Unit {0})
  modify_groups groups = do
    value ← get_register D ctlr 0
    set_register D ctlr 0 (value / 4 * 4 + groups)

  pub disable : M D (Unit {0})
  disable = modify_groups 0

  pub enable : M D (Unit {0})
  enable = modify_groups 3

  -- `irq_disable_all`, `pending_clear_all` and `active_clear_all`.
  pub clear_all : Status → ℕ → M D (Unit {0})
  clear_all st max_interrupts =
      fill D (clear_bank st) 0xffff_ffff 0
        (min (div_ceil max_interrupts 32) (bank_len (clear_bank st)))

  pub groups_all_to_0 : ℕ → M D (Unit {0})
  groups_all_to_0 max_interrupts =
      fill D igroupr 0 0 (min (div_ceil max_interrupts 32) (bank_len igroupr))

  pub set_default_sgi_ppi_priorities : M D (Unit {0})
  set_default_sgi_ppi_priorities = fill D ipriorityr 0xa0 0 32

  pub set_default_spi_priorities : ℕ → M D (Unit {0})
  set_default_spi_priorities max_interrupts =
      fill D ipriorityr 0xa0 32 (min (div_ceil max_interrupts 4) (bank_len ipriorityr) - 32)

  pub configure_interrupt_targets : ℕ → M D (Unit {0})
  configure_interrupt_targets max_interrupts =
      if leb max_interrupts 32
      then pure tt
      else fill D itargetsr 1 8
          (min (8 + div_ceil (max_interrupts - 32) 4) (bank_len itargetsr) - 8)

  pub configure_interrupt_config : ℕ → M D (Unit {0})
  configure_interrupt_config max_interrupts =
      fill D icfgr 0 0 (min (div_ceil max_interrupts 16) (bank_len icfgr))

  pub max_spi_num : M D ℕ
  max_spi_num = do value ← get_register D typer 0; pure ((field value 0 5 + 1) * 32)

  -- `Gic::init`
  pub init : M D (Unit {0})
  init = do
    disable
    max_spi ← max_spi_num
    clear_all enabled max_spi
    clear_all pending max_spi
    clear_all active max_spi
    groups_all_to_0 max_spi
    set_default_spi_priorities max_spi
    configure_interrupt_targets max_spi
    configure_interrupt_config max_spi
    enable

  -- The access to one status, and the methods that do it.
  pub set_status : Status → IntId → Bool → M D (Unit {0})
  set_status st id true = set_irq_bit D (set_bank st) id
  set_status st id false = set_irq_bit D (clear_bank st) id

  pub is_status : Status → IntId → M D Bool
  is_status st id = get_irq_bit D (set_bank st) id

  pub set_irq_enable : IntId → Bool → M D (Unit {0})
  set_irq_enable = set_status enabled

  pub is_irq_enable : IntId → M D Bool
  is_irq_enable = is_status enabled

  pub set_pending : IntId → Bool → M D (Unit {0})
  set_pending = set_status pending

  pub is_pending : IntId → M D Bool
  is_pending = is_status pending

  pub set_active : IntId → Bool → M D (Unit {0})
  set_active = set_status active

  pub is_active : IntId → M D Bool
  is_active = is_status active

  pub set_interrupt_group1 : IntId → Bool → M D (Unit {0})
  set_interrupt_group1 id true = set_irq_bit D igroupr id
  set_interrupt_group1 id false = clear_irq_bit D igroupr id

  pub set_priority : IntId → ℕ → M D (Unit {0})
  set_priority id priority = set_register D ipriorityr id priority

  pub get_priority : IntId → M D ℕ
  get_priority id = get_register D ipriorityr id

  pub set_target_cpu : IntId → ℕ → M D (Unit {0})
  set_target_cpu id target_list = do
    require (not (is_private id))
    set_register D itargetsr id target_list

  pub get_target_cpu : IntId → M D ℕ
  get_target_cpu id = do require (not (is_private id)); get_register D itargetsr id

  pub set_cfg : IntId → Trigger → M D (Unit {0})
  set_cfg id cfg = do
    let mask = 2 ^ (id % 16 * 2 + 1)
    current ← get_register D icfgr (id / 16)
    set_register D icfgr (id / 16)
        (elim cfg [ level ↦ bit_and current (0xffff_ffff - mask) | edge ↦ bit_or current mask ])

  pub get_cfg : IntId → M D Trigger
  get_cfg id = do
    current ← get_register D icfgr (id / 16)
    pure (trigger_of (not (bit_and current (2 ^ (id % 16 * 2 + 1)) == 0)))

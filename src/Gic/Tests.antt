-- ===== src/Gic/Tests.antt =====
-- The theorems on the GIC at a device with 64 interrupts.
use sparreal_os.Prelude.{lt→ltb, ℕ, ◌<◌, ◌≡◌, true, ◌==◌, if◌then◌else◌, arith, [], ◌∷◌}
use sparreal_os.Prelude.Outcome.{ok}
use sparreal_os.Gic.Distributor.{init, set_cfg, get_cfg, set_interrupt_group1}
use sparreal_os.Gic.Distributor.Initial.{Initial}
use sparreal_os.Gic.Distributor.Start.{init-Initial}
use sparreal_os.Gic.Distributor.Triggers.{
  set_cfg-get_cfg, in_group1, group_after, set_interrupt_group1_lem,
}
use sparreal_os.Gic.Ids.{IntId, IrqConfig, Trigger, edge}
use sparreal_os.Gic.Targets.{TargetList, new_target_list, cpu_id_list}
use sparreal_os.Gic.Targets.Laws.{contains, new_target_list-cpu_id_list}
use sparreal_os.Gic.Samples.{Registers, plain, plain-DeviceLaws, busy}

init-Initial_example :
    (s' : Registers) × (init plain busy ≡ ok tt s') × Initial plain plain-DeviceLaws busy s'
init-Initial_example = init-Initial plain plain-DeviceLaws busy

set_cfg-get_cfg_example :
    (s' : Registers) × (set_cfg plain 40 edge busy ≡ ok tt s')
    × ((j : IntId) (c : Trigger)
        → j < 1024
        → get_cfg plain j busy ≡ ok c busy
        → get_cfg plain j s' ≡ ok (if j == 40 then edge else c) s')
set_cfg-get_cfg_example =
    set_cfg-get_cfg plain plain-DeviceLaws 40 edge busy (omega arith) (λ v (h, _). lt→ltb v _ h)

set_interrupt_group1_lem_example :
    (s' : Registers) × (set_interrupt_group1 plain 40 true busy ≡ ok tt s')
    × ((j : IntId)
        → in_group1 plain plain-DeviceLaws s' j ≡ group_after plain plain-DeviceLaws 40 true busy j)
set_interrupt_group1_lem_example =
    set_interrupt_group1_lem plain plain-DeviceLaws 40 true busy (omega arith) (λ v h. lt→ltb v _ h)

new_target_list-cpu_id_list_example :
    (raw : TargetList) × (new_target_list {E = ⊥} (6 ∷ 1 ∷ 6 ∷ []) busy ≡ ok raw busy)
    × ((i : ℕ) → contains (cpu_id_list raw) i ≡ contains (6 ∷ 1 ∷ 6 ∷ []) i)
new_target_list-cpu_id_list_example =
    new_target_list-cpu_id_list (6 ∷ 1 ∷ 6 ∷ []) busy (omega arith)

abbrev spi_42 : IrqConfig
spi_42 = record { id = 74; trigger = edge }

-- ===== src/Gic/Specifier.antt =====
-- driver/intc/gic/src/version/mod.rs: the interrupt specifiers of a device tree. The cells are `u32`;
-- an addition that overflows panics.
pub mod Laws
use Prim.Native.String.{String}
use sparreal_os.Prelude.{
  ℕ, ◌+◌, ◌-◌, ◌^◌, Bool, ◌&&◌, ◌||◌, ltb, leb, ◌==◌, if◌then◌else◌, List, [], ◌∷◌, length, bit_and,
}
use sparreal_os.Prelude.Outcome.{Run, require, pure, throw, ◌>>=◌, ◌>>◌}
use sparreal_os.Gic.Ids.{IntId, IrqConfig, Trigger, edge, level, sgi, ppi_start, spi_start}

abbrev pub M : Type 0 → Type 0
M A = Unit {0} → Run String (Unit {0}) A

abbrev pub espi_base : ℕ
espi_base = 4096

abbrev pub eppi_base : ℕ
eppi_base = 1056

unfoldable pub checked_add : ℕ → ℕ → M ℕ
checked_add a b = do require (ltb (a + b) (2 ^ 32)); pure (a + b)

-- The hardware id, by the type of the interrupt.
unfoldable pub hwirq : (irq_type irq_num : ℕ) → M ℕ
hwirq irq_type irq_num =
    if irq_type == 0
    then checked_add spi_start irq_num
    else if irq_type == 1
    then checked_add ppi_start irq_num
    else if irq_type == 2
    then checked_add espi_base irq_num
    else if irq_type == 3
    then checked_add eppi_base irq_num
    else if irq_type == 4
    then pure irq_num
    else if irq_type == 5
    then (if leb 16 irq_num
        then (checked_add eppi_base irq_num >>= λ sum. pure (sum - 16))
        else checked_add 16 irq_num)
    else throw "Invalid IRQ type"

-- The trigger, by the sense bits of the flags.
unfoldable pub trigger : (irq_type irq_flags : ℕ) → M Trigger
trigger irq_type irq_flags =
    if irq_flags == 1 || irq_flags == 2 || irq_flags == 3
    then pure edge
    else if irq_flags == 4 || irq_flags == 8
    then pure level
    else if irq_flags == 0
    then (if irq_type == 5 then pure level else throw "IRQ_TYPE_NONE is not allowed for IRQ type")
    else throw "Invalid IRQ trigger type"

unfoldable pub fdt_parse_irq_config : List ℕ → M IrqConfig
fdt_parse_irq_config (n ∷ []) =
    if ltb n 16
    then (sgi n >>= λ id. pure (record { id = id; trigger = edge }))
    else throw "Invalid IRQ configuration: need at least 3 parameters"
fdt_parse_irq_config (irq_type ∷ irq_num ∷ flags ∷ rest) = do
  id ← hwirq irq_type irq_num
  t ← trigger irq_type (bit_and flags 0xf)
  pure (record { id = id; trigger = t })
fdt_parse_irq_config cells = throw "Invalid IRQ configuration: need at least 3 parameters"

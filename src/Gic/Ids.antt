-- ===== src/Gic/Ids.antt =====
-- driver/intc/gic/src/define.rs: the ids of interrupts and what triggers them.
use sparreal_os.Prelude.{ℕ, ◌+◌, ◌-◌, Bool, ◌&&◌, ltb, leb}
use sparreal_os.Prelude.Outcome.{Run, require, pure, ◌>>◌}

pub data Trigger : Type 0 where
  edge level : Trigger

-- `IntId(u32)`
abbrev pub IntId : Type 0
IntId = ℕ

pub record IrqConfig : Type 0 where
  pub id : IntId
  pub trigger : Trigger

-- `SGI_RANGE`, `PPI_RANGE`, `SPI_RANGE` and `SPECIAL_RANGE`: each up to the next, the last to 1024.
abbrev pub ppi_start : ℕ
ppi_start = 16

abbrev pub spi_start : ℕ
spi_start = 32

abbrev pub special_start : ℕ
special_start = 1020

abbrev pub special_end : ℕ
special_end = 1024

module _ {E S : Type 0} where
  -- The constructors panic out of the range that they test.
  unfoldable pub sgi : ℕ → S → Run E S IntId
  sgi n = do require (ltb n ppi_start); pure n

  unfoldable pub ppi : ℕ → S → Run E S IntId
  ppi n = do require (ltb n (spi_start - ppi_start)); pure (ppi_start + n)

  unfoldable pub spi : ℕ → S → Run E S IntId
  spi n = do require (ltb n special_start); pure (spi_start + n)

unfoldable pub is_sgi : IntId → Bool
is_sgi id = ltb id ppi_start

unfoldable pub is_private : IntId → Bool
is_private id = ltb id spi_start

unfoldable pub is_special : IntId → Bool
is_special id = leb special_start id && ltb id special_end

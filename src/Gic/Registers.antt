-- ===== src/Gic/Registers.antt =====
-- driver/intc/gic/src/version/v2/gicd.rs and version/mod.rs: the registers of the distributor and
-- the accesses to the bit of an interrupt. The device behind the registers is a parameter: a state
-- that reads and writes of a register act on. What it is taken to do is what the architecture
-- specification of the GIC says of these registers.
use sparreal_os.Prelude.{
  ℕ, zero, suc, ◌+◌, ◌-◌, ◌*◌, ◌/◌, ◌%◌, ◌^◌, ◌<◌, ◌≡◌, ◌≢◌, Bool, true, not, ◌&&◌, ◌||◌, ltb, ◌==◌,
  if◌then◌else◌, bit_and,
}
use sparreal_os.Prelude.BitAt.{bit_at}
use sparreal_os.Prelude.Outcome.{Run, ok, require, pure, ◌>>=◌, ◌>>◌}

-- `DistributorReg`
pub data Bank : Type 0 where
  ctlr typer igroupr isenabler icenabler ispendr icpendr isactiver icactiver : Bank
  ipriorityr itargetsr icfgr sgir : Bank

-- The lengths of the register arrays.
unfoldable pub bank_len : Bank → ℕ
bank_len ctlr = 1
bank_len typer = 1
bank_len igroupr = 0x20
bank_len isenabler = 0x20
bank_len icenabler = 0x20
bank_len ispendr = 0x20
bank_len icpendr = 0x20
bank_len isactiver = 0x20
bank_len icactiver = 0x20
bank_len ipriorityr = 1024
bank_len itargetsr = 1024
bank_len icfgr = 0x40
bank_len sgir = 1

pub record Device : Type 1 where
  pub State : Type 0
  pub read : Bank → ℕ → State → ℕ
  pub write : Bank → ℕ → ℕ → State → State

-- What software switches on by one array of registers and off by another.
pub data Status : Type 0 where
  enabled pending active : Status

abbrev pub set_bank : Status → Bank
set_bank enabled = isenabler
set_bank pending = ispendr
set_bank active = isactiver

abbrev pub clear_bank : Status → Bank
clear_bank enabled = icenabler
clear_bank pending = icpendr
clear_bank active = icactiver

-- The registers that hold what is written to them.
pub data Holds : Bank → Type 0 where
  ctlr_holds : Holds ctlr
  igroupr_holds : Holds igroupr
  ipriorityr_holds : Holds ipriorityr
  itargetsr_holds : Holds itargetsr
  icfgr_holds : Holds icfgr

module _ (D : Device) where
  -- The documented behaviour: `writable` are the interrupts whose status software may change, and
  -- `keeps` are the values that a register implements. A write to SGIR makes an interrupt pending, so
  -- nothing is said of what it does to a status.
  pub record DeviceLaws : Type 0 where
    pub on : Status → ℕ → D.State → Bool
    pub writable : Status → ℕ → Bool
    pub keeps : Bank → ℕ → ℕ → Bool
    pub read_lt : (b : Bank) (i : ℕ) (s : D.State) → D.read b i s < 2 ^ 32
    pub read_status :
        (st : Status) (i k : ℕ) (s : D.State)
        → k < 32
        → bit_at (D.read (set_bank st) i s) k ≡ on st (i * 32 + k) s
    pub write_set :
        (st : Status) (i v id : ℕ) (s : D.State)
        → writable st id ≡ true
        → on st id (D.write (set_bank st) i v s)
          ≡ (on st id s || (id / 32 == i && bit_at v (id % 32)))
    pub write_clear :
        (st : Status) (i v id : ℕ) (s : D.State)
        → writable st id ≡ true
        → on st id (D.write (clear_bank st) i v s)
          ≡ (on st id s && not (id / 32 == i && bit_at v (id % 32)))
    pub write_other :
        (st : Status) (b : Bank) (i v id : ℕ) (s : D.State)
        → b ≢ set_bank st
        → b ≢ clear_bank st
        → b ≢ sgir
        → on st id (D.write b i v s) ≡ on st id s
    pub read_self :
        (b : Bank) (i v : ℕ) (s : D.State)
        → Holds b
        → keeps b i v ≡ true
        → D.read b i (D.write b i v s) ≡ v
    pub read_other :
        (b b' : Bank) (i i' v : ℕ) (s : D.State)
        → Holds b
        → ¬ ((b' ≡ b) × (i' ≡ i))
        → D.read b i (D.write b' i' v s) ≡ D.read b i s
    pub read_typer :
        (b : Bank) (i v : ℕ) (s : D.State) → D.read typer 0 (D.write b i v s) ≡ D.read typer 0 s

  abbrev pub M : Type 0 → Type 0
  M A = D.State → Run ⊥ D.State A

  unfoldable pub get_register : Bank → ℕ → M ℕ
  get_register b i s = (require (ltb i (bank_len b)) >> λ s'. ok (D.read b i s') s') s

  unfoldable pub set_register : Bank → ℕ → ℕ → M (Unit {0})
  set_register b i v s = (require (ltb i (bank_len b)) >> λ s'. ok tt (D.write b i v s')) s

  -- `IrqVecWriteable` and `IrqVecReadable` for `[ReadWrite<u32>]`.
  unfoldable pub set_irq_bit : Bank → ℕ → M (Unit {0})
  set_irq_bit b index = set_register b (index / 32) (2 ^ (index % 32))

  unfoldable pub clear_irq_bit : Bank → ℕ → M (Unit {0})
  clear_irq_bit b intid = do
    let bit = 2 ^ (intid % 32)
    old ← get_register b (intid / 32)
    if bit_and old bit == 0
        then pure tt
        else set_register b (intid / 32) (bit_and old (0xffff_ffff - bit))

  unfoldable pub get_irq_bit : Bank → ℕ → M Bool
  get_irq_bit b index = do
    value ← get_register b (index / 32)
    pure (not (bit_and value (2 ^ (index % 32)) == 0))

  -- `for i in start..start + n { self.BANK[i].set(v) }`
  unfoldable pub fill : Bank → ℕ → (start n : ℕ) → M (Unit {0})
  fill b v start zero = pure tt
  fill b v start (suc n) = do set_register b start v; fill b v (start + 1) n

-- ===== src/Serial.antt =====
-- driver/serial/src/pl011.rs and driver/interface/rdif-serial/src/lib.rs: the configuration of a
-- PL011 serial port. `u32` arithmetic panics where it overflows, as in a build with overflow checks.
pub mod Registers
pub mod Effects
pub mod Steps
pub mod Transfer
pub mod Wanted
pub mod Configure
pub mod Settings
pub mod Laws
mod Samples
mod Tests
use sparreal_os.Prelude.{
  ℕ, zero, suc, ◌+◌, ◌*◌, ◌/◌, ◌%◌, ◌^◌, Bool, true, false, not, ◌||◌, ltb, ◌==◌, if◌then◌else◌,
  Option, none, some,
}
use sparreal_os.Prelude.Fields.{field, is_set}
use sparreal_os.Prelude.Outcome.{Run, ok, out_of_fuel, require, pure, throw, ◌>>=◌, ◌>>◌}
use sparreal_os.Serial.Registers.{Device, fr, ibrd, fbrd, lcr_h, cr, imsc, put_field}

pub data ConfigError : Type 0 where
  invalid_baudrate unsupported_data_bits unsupported_stop_bits : ConfigError
  unsupported_parity register_error timeout : ConfigError

pub data DataBits : Type 0 where
  five six seven eight : DataBits

pub data StopBits : Type 0 where
  one two : StopBits

pub data Parity : Type 0 where
  no_parity even odd mark space : Parity

pub record Config : Type 0 where
  pub baudrate : Option ℕ
  pub data_bits : Option DataBits
  pub stop_bits : Option StopBits
  pub parity : Option Parity

-- The values of `WLEN`.
unfoldable pub word_length : DataBits → ℕ
word_length five = 0
word_length six = 1
word_length seven = 2
word_length eight = 3

unfoldable pub data_bits_of : ℕ → DataBits
data_bits_of zero = five
data_bits_of (suc zero) = six
data_bits_of (suc (suc zero)) = seven
data_bits_of _ = eight

-- The values of `PEN`, `EPS` and `SPS` that a parity writes: without parity only `PEN` is written.
unfoldable pub with_parity : Parity → ℕ → ℕ
with_parity no_parity r = put_field r 1 1 0
with_parity odd r = put_field (put_field (put_field r 1 1 1) 2 1 0) 7 1 0
with_parity even r = put_field (put_field (put_field r 1 1 1) 2 1 1) 7 1 0
with_parity mark r = put_field (put_field (put_field r 1 1 1) 2 1 0) 7 1 1
with_parity space r = put_field (put_field (put_field r 1 1 1) 2 1 1) 7 1 1

unfoldable pub parity_of : (pen sps eps : Bool) → Parity
parity_of false sps eps = no_parity
parity_of true true true = space
parity_of true true false = mark
parity_of true false true = even
parity_of true false false = odd

module _ (D : Device) where
  abbrev pub M : Type 0 → Type 0
  M A = D.State → Run ConfigError D.State A

  unfoldable pub get : Registers.Register → M ℕ
  get r s = ok (D.read r s) (D.after_read r s)

  unfoldable pub set : Registers.Register → ℕ → M (Unit {0})
  set r v s = ok tt (D.write r v s)

  -- `register.modify(FIELD.val(v))`
  unfoldable pub modify : Registers.Register → (offset width v : ℕ) → M (Unit {0})
  modify r offset width v = do old ← get r; set r (put_field old offset width v)

  -- `while uartfr.is_set(BUSY) { spin_loop() }`
  unfoldable pub wait_idle : (fuel : ℕ) → M (Unit {0})
  wait_idle zero = λ _. out_of_fuel
  wait_idle (suc fuel) = do flags ← get fr; if is_set flags 3 then wait_idle fuel else pure tt

  unfoldable pub set_baudrate_internal : (clock_freq baudrate : ℕ) → M (Unit {0})
  set_baudrate_internal clock_freq baudrate = do
    require (ltb (16 * baudrate) (2 ^ 32))
    require (not (baudrate == 0))
    let bauddiv = clock_freq / (16 * baudrate)
    let remainder = clock_freq % (16 * baudrate)
    require (ltb (remainder * 64 + 16 * baudrate / 2) (2 ^ 32))
    let fraction = (remainder * 64 + 16 * baudrate / 2) / (16 * baudrate)
    if bauddiv == 0 || ltb 0xffff bauddiv
        then throw invalid_baudrate
        else (set ibrd (bauddiv % 2 ^ 16) >> set fbrd (fraction % 2 ^ 6))

  unfoldable pub set_data_bits_internal : DataBits → M (Unit {0})
  set_data_bits_internal bits = modify lcr_h 5 2 (word_length bits)

  unfoldable pub set_stop_bits_internal : StopBits → M (Unit {0})
  set_stop_bits_internal one = modify lcr_h 3 1 0
  set_stop_bits_internal two = modify lcr_h 3 1 1

  unfoldable pub set_parity_internal : Parity → M (Unit {0})
  set_parity_internal p = do old ← get lcr_h; set lcr_h (with_parity p old)

  -- `if let Some(x) = option { f(x)? }`
  unfoldable pub if_some : {A : Type 0} → Option A → (A → M (Unit {0})) → M (Unit {0})
  if_some none f = pure tt
  if_some (some a) f = f a

  unfoldable pub set_config : (clock_freq fuel : ℕ) → Config → M (Unit {0})
  set_config clock_freq fuel c = do
    control ← get cr
    modify cr 0 1 0
    wait_idle fuel
    modify lcr_h 4 1 0
    if_some c.baudrate (set_baudrate_internal clock_freq)
    if_some c.data_bits set_data_bits_internal
    if_some c.stop_bits set_stop_bits_internal
    if_some c.parity set_parity_internal
    modify lcr_h 4 1 1
    if is_set control 0 then modify cr 0 1 1 else pure tt

  unfoldable pub baudrate : (clock_freq : ℕ) → M ℕ
  baudrate clock_freq = do
    integer ← get ibrd
    fraction ← get fbrd
    let divisor = field integer 0 16 * 64 + field fraction 0 6
    if divisor == 0
        then pure 0
        else (require (ltb (clock_freq * 64) (2 ^ 32)) >> pure (clock_freq * 64 / (16 * divisor)))

  unfoldable pub data_bits : M DataBits
  data_bits = do line ← get lcr_h; pure (data_bits_of (field line 5 2))

  unfoldable pub stop_bits : M StopBits
  stop_bits = do line ← get lcr_h; pure (if is_set line 3 then two else one)

  -- The code reads the register again for each bit; nothing writes it in between.
  unfoldable pub parity : M Parity
  parity = do
    line ← get lcr_h
    if not (is_set line 1) then pure no_parity else do
      line' ← get lcr_h
      line'' ← get lcr_h
      pure (parity_of true (is_set line' 7) (is_set line'' 2))

  -- `init`, which `open` calls
  unfoldable pub init : (fuel : ℕ) → M (Unit {0})
  init fuel = do
    modify cr 0 1 0
    wait_idle fuel
    modify lcr_h 4 1 0
    modify lcr_h 4 1 1
    set imsc 0
    control ← get cr
    set cr (put_field (put_field (put_field control 0 1 1) 8 1 1) 9 1 1)

  unfoldable pub close : M (Unit {0})
  close = modify cr 0 1 0

  unfoldable pub enable_loopback : M (Unit {0})
  enable_loopback = modify cr 7 1 1

  unfoldable pub disable_loopback : M (Unit {0})
  disable_loopback = modify cr 7 1 0

  unfoldable pub is_loopback_enabled : M Bool
  is_loopback_enabled = do control ← get cr; pure (is_set control 7)

  unfoldable pub enable_fifo : Bool → M (Unit {0})
  enable_fifo true = modify lcr_h 4 1 1
  enable_fifo false = modify lcr_h 4 1 0

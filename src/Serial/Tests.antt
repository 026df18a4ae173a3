-- ===== src/Serial/Tests.antt =====
-- The theorems on a serial port, at a port with a clock of 24 MHz and one with three words to read.
use sparreal_os.Prelude.{ℕ, ◌≡◌, refl, ap, subst, Option, none, some, List, [], ◌∷◌, arith}
use sparreal_os.Prelude.Outcome.{ok, err}
use sparreal_os.Serial.{invalid_baudrate, Config, seven, two, even, set_config}
use sparreal_os.Serial.Wanted.{Accepts}
use sparreal_os.Serial.Laws.{Configured, Refused, set_config-Configured, set_config-Refused}
use sparreal_os.Prelude.Fields.{field, is_set}
use sparreal_os.Serial.Transfer.{
  overrun, stopped, read_bytes, read_loop, read_round, read_byte, decode, at_end,
}
use sparreal_os.Serial.Transfer.Reads.{described, read_bytes_lem}
use sparreal_os.Serial.Samples.{
  read_queue, after_queue, queue, Port, plain, plain-DeviceLaws, in_use, all_sent, two_rounds,
}

abbrev settings : ℕ → Config
settings rate = record {
  baudrate = some rate;
  data_bits = some seven;
  stop_bits = some two;
  parity = some even;
}

abbrev rate_of : Option ℕ → ℕ
rate_of none = 0
rate_of (some b) = b

accepted : (b : ℕ) → 115200 ≡ b → Accepts 24_000_000 b
accepted b e = subst (Accepts 24_000_000) e record {
  computes = record { positive = omega arith; period = omega arith; rounding = omega arith };
  low = omega arith;
  high = omega arith;
  no_carry = omega arith;
}

set_config-Configured_example :
    (s' : Port) × (set_config plain 24_000_000 2 (settings 115200) in_use ≡ ok tt s')
    × Configured plain plain-DeviceLaws 24_000_000 (settings 115200) in_use s'
set_config-Configured_example =
    set_config-Configured plain plain-DeviceLaws 24_000_000 2 (settings 115200) in_use all_sent
      two_rounds (λ b e. accepted b (ap rate_of e))

set_config-Refused_example :
    (s' : Port) × (set_config plain 24_000_000 2 (settings 3_000_000) in_use
      ≡ err invalid_baudrate s')
    × Refused plain plain-DeviceLaws in_use s'
set_config-Refused_example =
    set_config-Refused plain plain-DeviceLaws 24_000_000 2 (settings 3_000_000) 3_000_000 in_use
      all_sent two_rounds refl
      (record { positive = omega arith; period = omega arith; rounding = omega arith }) refl

-- A byte, a byte that came with an overrun, and a third one.
abbrev words : List ℕ
words = 0x41 ∷ 0x842 ∷ 0x43 ∷ []

abbrev zeros : List ℕ
zeros = 0 ∷ 0 ∷ 0 ∷ 0 ∷ []

read_bytes_lem_example : read_bytes queue zeros words ≡ described queue zeros 0 none words
read_bytes_lem_example = read_bytes_lem queue zeros words

-- Three bytes are stored, and two reported.
read_three : read_bytes queue zeros words ≡ (
  (0x41 ∷ 0x42 ∷ 0x43 ∷ 0 ∷ [], stopped (record { bytes_transferred = 2; kind = overrun 0x42 })),
  [],
)
unfolding read_bytes read_loop read_round read_byte decode at_end field is_set read_queue
    after_queue
read_three = refl

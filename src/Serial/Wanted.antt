-- ===== src/Serial/Wanted.antt =====
-- What a configuration of a serial port asks of the registers.
use sparreal_os.Prelude.{ℕ, ◌+◌, ◌*◌, ◌/◌, ◌%◌, ◌^◌, ◌<◌, Option, none, some, arith}
use sparreal_os.Serial.Effects.{Line, parity_line}
use sparreal_os.Serial.{DataBits, five, six, seven, eight, StopBits, one, two, Config, word_length}
use sparreal_os.Serial.Steps.{Held}

-- The code computes with this rate without overflow.
pub record Computes (clock_freq baudrate : ℕ) : Type 0 where
  pub positive : 0 < baudrate
  pub period : 16 * baudrate < 2 ^ 32
  pub rounding : clock_freq % (16 * baudrate) * 64 + 16 * baudrate / 2 < 2 ^ 32

-- The rate has a divisor of 16 bits, and its fraction is not rounded up to a whole.
pub record Accepts (clock_freq baudrate : ℕ) : Type 0 where
  pub computes : Computes clock_freq baudrate
  pub low : 0 < clock_freq / (16 * baudrate)
  pub high : clock_freq / (16 * baudrate) < 2 ^ 16
  pub no_carry : (clock_freq % (16 * baudrate) * 64 + 16 * baudrate / 2) / (16 * baudrate) < 2 ^ 6

-- The clock divided by 16 times the rate, in 64ths and rounded to the nearest.
abbrev pub nearest : (clock_freq baudrate : ℕ) → ℕ
nearest clock_freq baudrate = (clock_freq * 64 + 16 * baudrate / 2) / (16 * baudrate)

abbrev pub or_else {ℓ} : {A : Type ℓ} → Option A → A → A
or_else none a = a
or_else (some a) _ = a

unfoldable pub stop_line : StopBits → Line → Line
stop_line one l = record l { stp2 = 0 }
stop_line two l = record l { stp2 = 1 }

unfoldable pub data_line : DataBits → Line → Line
data_line b l = record l { wlen = word_length b }

pub word_length_lt : (b : DataBits) → word_length b < 4
unfolding word_length
word_length_lt five = omega arith
word_length_lt six = omega arith
word_length_lt seven = omega arith
word_length_lt eight = omega arith

unfoldable pub change : {A : Type 0} → Option A → (A → Line → Line) → Line → Line
change none f l = l
change (some a) f l = f a l

unfoldable pub line_after : Config → Line → Line
line_after c l =
    change c.parity parity_line
      (change c.stop_bits stop_line (change c.data_bits data_line (record l { fen = 0 })))

abbrev pub held_refused : Held → Held
held_refused h = record h { line = record (h.line) { fen = 0 }; enable = 0 }

module _ (clock_freq : ℕ) where
  unfoldable pub integer_after : Option ℕ → ℕ → ℕ
  integer_after none v = v
  integer_after (some b) v = clock_freq / (16 * b)

  unfoldable pub fraction_after : Option ℕ → ℕ → ℕ
  fraction_after none v = v
  fraction_after (some b) v = (clock_freq % (16 * b) * 64 + 16 * b / 2) / (16 * b)

  abbrev pub baud_held : Option ℕ → Held → Held
  baud_held b h = record h {
    integer = integer_after b h.integer;
    fraction = fraction_after b h.fraction;
  }

  abbrev pub held_after : Config → Held → Held
  held_after c h = record (baud_held c.baudrate h) {
    line = record (line_after c h.line) { fen = 1 };
  }

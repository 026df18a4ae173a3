-- ===== src/Serial/Settings.antt =====
-- What changing the settings of a serial port does to the fields of its registers.
use native.Mathlib.Nat.{div-add-mod', mul_right_comm, mul-add-div_right}
use sparreal_os.Prelude.{
  ℕ, ◌+◌, ◌*◌, ◌/◌, ◌%◌, ◌<◌, ◌≡◌, refl, sym, ap, ◌∙◌, ◌==◌, if◌then◌else◌, Option, none, some,
  arith,
}
use sparreal_os.Serial.Effects.{Line, parity_line}
use sparreal_os.Serial.{
  DataBits, five, six, seven, eight, StopBits, one, two, Parity, no_parity, odd, even, mark, space,
  Config, word_length, data_bits_of, parity_of,
}
use sparreal_os.Serial.Wanted.{
  Accepts, data_line, stop_line, change, line_after, integer_after, fraction_after,
}

-- The new setting where there is one, or else what was read before.
abbrev pub or_before : {A : Type 0} → Option A → Option A → Option A
or_before none old = old
or_before (some a) old = some a

-- The clock divided by 16 times the rate, in 64ths and rounded to the nearest; or else the divisor
-- of before.
abbrev pub nearest : (clock_freq : ℕ) → Option ℕ → ℕ → ℕ
nearest clock_freq none old = old
nearest clock_freq (some b) old = (clock_freq * 64 + 16 * b / 2) / (16 * b)

unfoldable pub parity_of_line : Line → Parity
parity_of_line l = parity_of (l.pen == 1) (l.sps == 1) (l.eps == 1)

unfoldable pub stop_bits_of_line : Line → StopBits
stop_bits_of_line l = if l.stp2 == 1 then two else one

parity_keeps :
    (p : Option Parity) (l : Line)
    → ((change p parity_line l).wlen ≡ l.wlen) × ((change p parity_line l).stp2 ≡ l.stp2)
unfolding change parity_line
parity_keeps none l = (refl, refl)
parity_keeps (some no_parity) l = (refl, refl)
parity_keeps (some odd) l = (refl, refl)
parity_keeps (some even) l = (refl, refl)
parity_keeps (some mark) l = (refl, refl)
parity_keeps (some space) l = (refl, refl)

stop_keeps :
    (t : Option StopBits) (l : Line)
    → ((change t stop_line l).wlen ≡ l.wlen)
      × (parity_of_line (change t stop_line l) ≡ parity_of_line l)
unfolding change stop_line parity_of_line
stop_keeps none l = (refl, refl)
stop_keeps (some one) l = (refl, refl)
stop_keeps (some two) l = (refl, refl)

data_keeps :
    (d : Option DataBits) (l : Line)
    → ((change d data_line l).stp2 ≡ l.stp2)
      × (parity_of_line (change d data_line l) ≡ parity_of_line l)
unfolding change data_line parity_of_line
data_keeps none l = (refl, refl)
data_keeps (some d) l = (refl, refl)

change_data :
    (d : Option DataBits) (l : Line)
    → some (data_bits_of (change d data_line l).wlen) ≡ or_before d (some (data_bits_of l.wlen))
unfolding change data_line word_length data_bits_of
change_data none l = refl
change_data (some five) l = refl
change_data (some six) l = refl
change_data (some seven) l = refl
change_data (some eight) l = refl

change_stop :
    (t : Option StopBits) (l : Line)
    → some (stop_bits_of_line (change t stop_line l)) ≡ or_before t (some (stop_bits_of_line l))
unfolding change stop_line stop_bits_of_line
change_stop none l = refl
change_stop (some one) l = refl
change_stop (some two) l = refl

change_parity :
    (p : Option Parity) (l : Line)
    → some (parity_of_line (change p parity_line l)) ≡ or_before p (some (parity_of_line l))
unfolding change parity_line parity_of_line parity_of
change_parity none l = refl
change_parity (some no_parity) l = refl
change_parity (some odd) l = refl
change_parity (some even) l = refl
change_parity (some mark) l = refl
change_parity (some space) l = refl

scaled : (n q r m h : ℕ) → q * m + r ≡ n → n * 64 + h ≡ q * 64 * m + (r * 64 + h)
scaled n q r m h e = omega (arith, mul_right_comm q 64 m)

pub divisor_after :
    (clock_freq : ℕ) (b : Option ℕ) (i f : ℕ)
    → ((b' : ℕ) → b ≡ some b' → Accepts clock_freq b')
    → integer_after clock_freq b i * 64 + fraction_after clock_freq b f
      ≡ nearest clock_freq b (i * 64 + f)
unfolding integer_after fraction_after
divisor_after clock_freq none i f accepts = refl
divisor_after clock_freq (some b) i f accepts =
    let p = (accepts b refl).computes.positive in
    let m = 16 * b in
    let q = clock_freq / m in
    let r = clock_freq % m in
    let positive : 0 < m = omega (arith, p) in
    let split : clock_freq * 64 + 16 * b / 2 ≡ q * 64 * m + (r * 64 + 16 * b / 2) =
      scaled clock_freq q r m (16 * b / 2) (div-add-mod' clock_freq m) in
    sym (rw split (mul-add-div_right positive (q * 64) (r * 64 + 16 * b / 2)))

module _ (c : Config) (l : Line) where
  abbrev before : Line
  before = record l { fen = 0 }

  abbrev sized : Line
  sized = change c.data_bits data_line before

  abbrev stopped : Line
  stopped = change c.stop_bits stop_line sized

  pub data_bits_after :
      some (data_bits_of (line_after c l).wlen) ≡ or_before c.data_bits (some (data_bits_of l.wlen))
  unfolding line_after
  data_bits_after =
      ap (λ w. some (data_bits_of w))
        ((parity_keeps c.parity stopped).0 ∙ (stop_keeps c.stop_bits sized).0)
      ∙ change_data c.data_bits before

  pub stop_bits_after :
      some (stop_bits_of_line (line_after c l)) ≡ or_before c.stop_bits (some (stop_bits_of_line l))
  unfolding line_after stop_bits_of_line
  stop_bits_after =
      ap (λ w. some (if w == 1 then two else one)) (parity_keeps c.parity stopped).1
      ∙ change_stop c.stop_bits sized
      ∙ ap (λ w. or_before c.stop_bits (some (if w == 1 then two else one)))
          (data_keeps c.data_bits before).0

  pub parity_after :
      some (parity_of_line (line_after c l)) ≡ or_before c.parity (some (parity_of_line l))
  unfolding line_after parity_of_line
  parity_after =
      change_parity c.parity stopped
      ∙ ap (λ w. or_before c.parity (some w))
          ((stop_keeps c.stop_bits sized).1 ∙ (data_keeps c.data_bits before).1)

-- ===== src/Serial/Effects.antt =====
-- What writing a field of the line control register or of the control register does to the others.
use sparreal_os.Prelude.{ℕ, ◌<◌, ◌≡◌, ◌∙◌, true, ap, arith}
use sparreal_os.Prelude.Fields.{field}
use sparreal_os.Serial.Registers.{cr, implemented, put_field}
use sparreal_os.Serial.{Parity, no_parity, odd, even, mark, space, with_parity}

-- The fields of the line control register that the code works with.
pub record Line : Type 0 where
  pub pen : ℕ
  pub eps : ℕ
  pub stp2 : ℕ
  pub fen : ℕ
  pub wlen : ℕ
  pub sps : ℕ

abbrev pub line_of : ℕ → Line
line_of r = record {
  pen = field r 1 1;
  eps = field r 2 1;
  stp2 = field r 3 1;
  fen = field r 4 1;
  wlen = field r 5 2;
  sps = field r 7 1;
}

line_eq :
    {a b : Line}
    → a.pen ≡ b.pen
    → a.eps ≡ b.eps
    → a.stp2 ≡ b.stp2
    → a.fen ≡ b.fen
    → a.wlen ≡ b.wlen
    → a.sps ≡ b.sps
    → a ≡ b
line_eq e f g h k l =
    λ i. record { pen = e i; eps = f i; stp2 = g i; fen = h i; wlen = k i; sps = l i }

module _ (r v : ℕ) where
  pub put_pen : v < 2 → line_of (put_field r 1 1 v) ≡ record (line_of r) { pen = v }
  unfolding put_field field
  put_pen h =
      line_eq (omega arith) (omega arith) (omega arith) (omega arith) (omega arith) (omega arith)

  pub put_pen_lt : r < 256 → put_field r 1 1 v < 256
  unfolding put_field
  put_pen_lt h = omega arith

  pub put_eps : v < 2 → line_of (put_field r 2 1 v) ≡ record (line_of r) { eps = v }
  unfolding put_field field
  put_eps h =
      line_eq (omega arith) (omega arith) (omega arith) (omega arith) (omega arith) (omega arith)

  pub put_eps_lt : r < 256 → put_field r 2 1 v < 256
  unfolding put_field
  put_eps_lt h = omega arith

  pub put_stp2 : v < 2 → line_of (put_field r 3 1 v) ≡ record (line_of r) { stp2 = v }
  unfolding put_field field
  put_stp2 h =
      line_eq (omega arith) (omega arith) (omega arith) (omega arith) (omega arith) (omega arith)

  pub put_stp2_lt : r < 256 → put_field r 3 1 v < 256
  unfolding put_field
  put_stp2_lt h = omega arith

  pub put_fen : v < 2 → line_of (put_field r 4 1 v) ≡ record (line_of r) { fen = v }
  unfolding put_field field
  put_fen h =
      line_eq (omega arith) (omega arith) (omega arith) (omega arith) (omega arith) (omega arith)

  pub put_fen_lt : r < 256 → put_field r 4 1 v < 256
  unfolding put_field
  put_fen_lt h = omega arith

  pub put_wlen : v < 4 → line_of (put_field r 5 2 v) ≡ record (line_of r) { wlen = v }
  unfolding put_field field
  put_wlen h =
      line_eq (omega arith) (omega arith) (omega arith) (omega arith) (omega arith) (omega arith)

  pub put_wlen_lt : r < 256 → put_field r 5 2 v < 256
  unfolding put_field
  put_wlen_lt h = omega arith

  pub put_sps : v < 2 → line_of (put_field r 7 1 v) ≡ record (line_of r) { sps = v }
  unfolding put_field field
  put_sps h =
      line_eq (omega arith) (omega arith) (omega arith) (omega arith) (omega arith) (omega arith)

  pub put_sps_lt : r < 256 → put_field r 7 1 v < 256
  unfolding put_field
  put_sps_lt h = omega arith

-- The line after a parity was written.
unfoldable pub parity_line : Parity → Line → Line
parity_line no_parity l = record l { pen = 0 }
parity_line odd l = record l { pen = 1; eps = 0; sps = 0 }
parity_line even l = record l { pen = 1; eps = 1; sps = 0 }
parity_line mark l = record l { pen = 1; eps = 0; sps = 1 }
parity_line space l = record l { pen = 1; eps = 1; sps = 1 }

three :
    (r e s : ℕ)
    → e < 2
    → s < 2
    → line_of (put_field (put_field (put_field r 1 1 1) 2 1 e) 7 1 s)
      ≡ record (line_of r) { pen = 1; eps = e; sps = s }
three r e s he hs =
    let a = put_field r 1 1 1 in
    let b = put_field a 2 1 e in
    put_sps b s hs
    ∙ ap {A = Line} (λ l. record l { sps = s })
        (put_eps a e he ∙ ap {A = Line} (λ l. record l { eps = e }) (put_pen r 1 (omega arith)))

three_lt : (r e s : ℕ) → r < 256 → put_field (put_field (put_field r 1 1 1) 2 1 e) 7 1 s < 256
three_lt r e s h = put_sps_lt _ s (put_eps_lt _ e (put_pen_lt r 1 h))

pub line_of-with_parity :
    (p : Parity) (r : ℕ) → line_of (with_parity p r) ≡ parity_line p (line_of r)
unfolding with_parity parity_line
line_of-with_parity no_parity r = put_pen r 0 (omega arith)
line_of-with_parity odd r = three r 0 0 (omega arith) (omega arith)
line_of-with_parity even r = three r 1 0 (omega arith) (omega arith)
line_of-with_parity mark r = three r 0 1 (omega arith) (omega arith)
line_of-with_parity space r = three r 1 1 (omega arith) (omega arith)

pub with_parity_lt : (p : Parity) (r : ℕ) → r < 256 → with_parity p r < 256
unfolding with_parity
with_parity_lt no_parity r h = put_pen_lt r 0 h
with_parity_lt odd r h = three_lt r 0 0 h
with_parity_lt even r h = three_lt r 1 0 h
with_parity_lt mark r h = three_lt r 0 1 h
with_parity_lt space r h = three_lt r 1 1 h

pub put_enabled : (r v : ℕ) → v < 2 → field (put_field r 0 1 v) 0 1 ≡ v
unfolding put_field field
put_enabled r v h = omega arith

pub put_enabled_implemented :
    (r v : ℕ) → implemented cr r ≡ true → implemented cr (put_field r 0 1 v) ≡ true
unfolding put_field implemented
put_enabled_implemented r v h = ground arith

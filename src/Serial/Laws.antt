-- ===== src/Serial/Laws.antt =====
-- `set_config` of a serial port, as the getters read the port before and after it.
use sparreal_os.Prelude.{
  ℕ, ◌+◌, ◌*◌, ◌/◌, ◌%◌, ◌^◌, ◌≤◌, ◌<◌, ◌≡◌, refl, sym, ap, ◌∙◌, true, false, Bool-cases, inl, inr,
  ◌&&◌, ltb, ◌==◌, Option, none, some, arith,
}
use sparreal_os.Prelude.Fields.{field, is_set}
use sparreal_os.Prelude.Outcome.{Run, ok, err, panic, out_of_fuel, Ensures, returns, fails}
use sparreal_os.Serial.Effects.{Line, line_of}
use sparreal_os.Serial.Registers.{Device, DeviceLaws, ibrd, fbrd, lcr_h, cr, lcr_h_holds}
use sparreal_os.Serial.{
  ConfigError, invalid_baudrate, Config, data_bits_of, parity_of, get, set_config, data_bits,
  stop_bits, parity,
}
use sparreal_os.Serial.Settings.{
  or_before, nearest, parity_of_line, stop_bits_of_line, data_bits_after, stop_bits_after,
  parity_after, divisor_after,
}
use sparreal_os.Serial.Steps.{held}
use sparreal_os.Serial.Configure.{set_config-Moves, set_config_refused}
use sparreal_os.Serial.Wanted.{Computes, Accepts, line_after, held_after, held_refused}

-- What a getter returns.
abbrev pub answer {ℓ} : {E : Type ℓ} {S A : Type 0} → Run E S A → Option A
answer (ok a s) = some a
answer (err e s) = none
answer panic = none
answer out_of_fuel = none

enable_lt : (v : ℕ) → field v 0 1 < 2
unfolding field
enable_lt v = omega arith

module _ (D : Device) (laws : DeviceLaws D) where
  abbrev line : D.State → Line
  line s = line_of (laws.value lcr_h s)

  read_line : (s : D.State) → D.read lcr_h s ≡ laws.value lcr_h s
  read_line s = laws.read_held lcr_h s lcr_h_holds

  reread : (s : D.State) → D.read lcr_h (D.after_read lcr_h s) ≡ laws.value lcr_h s
  reread s = read_line _ ∙ laws.after_read_held lcr_h lcr_h s lcr_h_holds

  reread' :
      (s : D.State) → D.read lcr_h (D.after_read lcr_h (D.after_read lcr_h s)) ≡ laws.value lcr_h s
  reread' s = reread _ ∙ laws.after_read_held lcr_h lcr_h s lcr_h_holds

  answer-data_bits : (s : D.State) → answer (data_bits D s) ≡ some (data_bits_of (line s).wlen)
  unfolding data_bits get
  answer-data_bits s = ap (λ r. some (data_bits_of (field r 5 2))) (read_line s)

  answer-stop_bits : (s : D.State) → answer (stop_bits D s) ≡ some (stop_bits_of_line (line s))
  unfolding stop_bits get is_set field stop_bits_of_line
  answer-stop_bits s = rw (read_line s) refl

  answer-parity : (s : D.State) → answer (parity D s) ≡ some (parity_of_line (line s))
  unfolding parity get parity_of_line is_set field parity_of
  answer-parity s = elim (Bool-cases (laws.value lcr_h s / 2 ^ 1 % 2 == 1)) [
    | inl on ↦ rw (read_line s, on, reread s, reread' s) refl
    | inr off ↦ rw (read_line s, off) refl
  ]

  -- The 16 bits and the 6 bits of the divisor of the clock.
  abbrev pub divisor : D.State → ℕ
  divisor s = laws.value ibrd s * 64 + laws.value fbrd s

  -- `s'` is `s` with the settings of `c`.
  pub record Configured (clock_freq : ℕ) (c : Config) (s s' : D.State) : Type 0 where
    pub new_data_bits : answer (data_bits D s') ≡ or_before c.data_bits (answer (data_bits D s))
    pub new_stop_bits : answer (stop_bits D s') ≡ or_before c.stop_bits (answer (stop_bits D s))
    pub new_parity : answer (parity D s') ≡ or_before c.parity (answer (parity D s))
    pub new_divisor : divisor s' ≡ nearest clock_freq c.baudrate (divisor s)
    pub same_enable : field (laws.value cr s') 0 1 ≡ field (laws.value cr s) 0 1
    pub fifo : field (laws.value lcr_h s') 4 1 ≡ 1

  -- `s'` is `s` with the port disabled and its queues off.
  pub record Refused (s s' : D.State) : Type 0 where
    pub same_data_bits : answer (data_bits D s') ≡ answer (data_bits D s)
    pub same_stop_bits : answer (stop_bits D s') ≡ answer (stop_bits D s)
    pub same_parity : answer (parity D s') ≡ answer (parity D s)
    pub same_divisor : divisor s' ≡ divisor s
    pub disabled : field (laws.value cr s') 0 1 ≡ 0
    pub no_fifo : field (laws.value lcr_h s') 4 1 ≡ 0

  held-Configured :
      (clock_freq : ℕ) (c : Config) (s s' : D.State)
      → ((b : ℕ) → c.baudrate ≡ some b → Accepts clock_freq b)
      → held D laws s' ≡ held_after clock_freq c (held D laws s)
      → Configured clock_freq c s s'
  unfolding stop_bits_of_line parity_of_line
  held-Configured clock_freq c s s' accepts e =
      let lines : line s' ≡ record (line_after c (line s)) { fen = 1 } = ap (λ k. k.line) e in
      record {
        new_data_bits =
            answer-data_bits s'
            ∙ ap (λ l. some (data_bits_of l.wlen)) lines
            ∙ data_bits_after c (line s)
            ∙ ap (or_before c.data_bits) (sym (answer-data_bits s));
        new_stop_bits =
            answer-stop_bits s'
            ∙ ap (λ l. some (stop_bits_of_line l)) lines
            ∙ stop_bits_after c (line s)
            ∙ ap (or_before c.stop_bits) (sym (answer-stop_bits s));
        new_parity =
            answer-parity s'
            ∙ ap (λ l. some (parity_of_line l)) lines
            ∙ parity_after c (line s)
            ∙ ap (or_before c.parity) (sym (answer-parity s));
        new_divisor =
            ap (λ k. k.integer * 64 + k.fraction) e
            ∙ divisor_after clock_freq c.baudrate (laws.value ibrd s) (laws.value fbrd s) accepts;
        same_enable = ap (λ k. k.enable) e;
        fifo = ap (λ l. l.fen) lines;
      }

  held-Refused : (s s' : D.State) → held D laws s' ≡ held_refused (held D laws s) → Refused s s'
  unfolding stop_bits_of_line parity_of_line
  held-Refused s s' e =
      let lines : line s' ≡ record (line s) { fen = 0 } = ap (λ k. k.line) e in
      record {
        same_data_bits =
            answer-data_bits s'
            ∙ ap (λ l. some (data_bits_of l.wlen)) lines
            ∙ sym (answer-data_bits s);
        same_stop_bits =
            answer-stop_bits s'
            ∙ ap (λ l. some (stop_bits_of_line l)) lines
            ∙ sym (answer-stop_bits s);
        same_parity =
            answer-parity s' ∙ ap (λ l. some (parity_of_line l)) lines ∙ sym (answer-parity s);
        same_divisor = ap (λ k. k.integer * 64 + k.fraction) e;
        disabled = ap (λ k. k.enable) e;
        no_fifo = ap (λ l. l.fen) lines;
      }

  returned :
      {P : D.State → Type 0} {r : Run ConfigError D.State (Unit {0})}
      → Ensures (λ _. P) (λ _ _. ⊥) r
      → (s' : D.State) × (r ≡ ok tt s') × P s'
  returned (returns p) = (_, refl, p)
  returned (fails q) = absurd q

  failed :
      {P : ConfigError → D.State → Type 0} {Q : D.State → Type 0}
      {r : Run ConfigError D.State (Unit {0})}
      → Ensures (λ _ s'. ⊥ × Q s') P r
      → (e : ConfigError) × (s' : D.State) × (r ≡ err e s') × P e s'
  failed (returns q) = absurd (q.0)
  failed (fails p) = (_, _, refl, p)

  -- Where no character waits in the transmit queue, enough fuel is given for the one in flight to
  -- end, and a requested rate is one that the code computes without overflow, that has a divisor of the clock of 16 bits, and whose
  -- fraction is not rounded up to a whole, `set_config` returns without error. The getters then
  -- read the settings of the configuration, or what they read before where it has none; the divisor
  -- is the nearest one to the requested rate, or the one of before; the port is enabled if it was,
  -- and its queues are on.
  pub set_config-Configured :
      (clock_freq fuel : ℕ) (c : Config) (s : D.State)
      → laws.sent s ≡ true
      → laws.drain ≤ fuel
      → ((b : ℕ) → c.baudrate ≡ some b → Accepts clock_freq b)
      → (s' : D.State) × (set_config D clock_freq fuel c s ≡ ok tt s')
        × Configured clock_freq c s s'
  set_config-Configured clock_freq fuel c s idle enough accepts =
      let lt : field (laws.value cr s) 0 1 < 2 = enable_lt (laws.value cr s) in
      let moves = set_config-Moves D laws clock_freq fuel c (held D laws s) enough accepts lt in
      let (s', eq, p) = returned (moves.run s refl idle) in
      (s', eq, held-Configured clock_freq c s s' accepts p.0)

  -- Where no character waits in the transmit queue, enough fuel is given for the one in flight to
  -- end, and the code computes with
  -- the requested rate without overflow but its divisor of the clock is 0 or has more than 16 bits,
  -- `set_config` fails with `InvalidBaudrate`. It leaves the port disabled and its queues off, also
  -- where they were on before; the divisor and the settings that the getters read are kept.
  pub set_config-Refused :
      (clock_freq fuel : ℕ) (c : Config) (b : ℕ) (s : D.State)
      → laws.sent s ≡ true
      → laws.drain ≤ fuel
      → c.baudrate ≡ some b
      → Computes clock_freq b
      → ltb 0 (clock_freq / (16 * b)) && ltb (clock_freq / (16 * b)) (2 ^ 16) ≡ false
      → (s' : D.State) × (set_config D clock_freq fuel c s ≡ err invalid_baudrate s') × Refused s s'
  set_config-Refused clock_freq fuel c b s idle enough is computes out =
      let runs =
        set_config_refused D laws clock_freq fuel c b (held D laws s) enough is computes out in
      let (e, s', eq, p) = failed (runs.run s refl idle) in
      (s', eq ∙ ap (λ x. err x s') p.0, held-Refused s s' p.1)

-- ===== src/Serial/Configure.antt =====
-- What `set_config` of a serial port leaves in the registers.
use native.Mathlib.Nat.{mod-eq_of_lt}
use sparreal_os.Prelude.{
  ℕ, zero, suc, ◌+◌, ◌*◌, ◌/◌, ◌%◌, ◌^◌, ◌≤◌, ◌<◌, ◌≡◌, refl, ap, ◌∙◌, Bool, true, false, not, ◌&&◌,
  ◌||◌, ltb, lt→ltb, ◌==◌, if◌then◌else◌, Option, none, some, arith,
}
use sparreal_os.Prelude.Fields.{field, is_set}
use sparreal_os.Prelude.Outcome.{ok, err, ◌>>◌, returns, fails}
use sparreal_os.Serial.Effects.{
  Line, put_stp2, put_stp2_lt, put_fen, put_fen_lt, put_wlen, put_wlen_lt, parity_line,
  line_of-with_parity, with_parity_lt,
}
use sparreal_os.Serial.Registers.{Device, DeviceLaws, ibrd, fbrd, lcr_h, cr, cr_holds}
use sparreal_os.Serial.{
  M, ConfigError, invalid_baudrate, DataBits, StopBits, one, two, Parity, Config, word_length,
  with_parity, get, set, modify, set_baudrate_internal, set_data_bits_internal,
  set_stop_bits_internal, set_parity_internal, if_some, set_config,
}
use sparreal_os.Serial.Steps.{
  Held, Runs, Moves, Runs-bind, Runs-seq, held-after_read, set_integer_Moves, set_fraction_Moves,
  update_line, modify_line, modify_enable, wait_idle-Moves,
}
use sparreal_os.Serial.Wanted.{
  Computes, Accepts, stop_line, data_line, word_length_lt, change, line_after, held_refused,
  integer_after, fraction_after, baud_held, held_after,
}

module _ (D : Device) (laws : DeviceLaws D) (clock_freq : ℕ) where
  infixr 4 ◌⨾◌
  pub ◌⨾◌ :
      {h h' : Held} {P : Unit {0} → Held → Type 0} {Q : ConfigError → Held → Type 0}
      {m n : M D (Unit {0})}
      → Moves D laws h h' m
      → Runs D laws h' P Q n
      → Runs D laws h P Q (m >> n)
  r ⨾ next = Runs-seq D laws r next

  same_Moves : (h : Held) → Moves D laws h h (λ s. ok tt s)
  same_Moves h = record { run = λ s e q. returns (e, q) }

  set_baudrate_lem :
      (b : ℕ)
      → Accepts clock_freq b
      → set_baudrate_internal D clock_freq b ≡ (
          set D ibrd (clock_freq / (16 * b))
          >> set D fbrd ((clock_freq % (16 * b) * 64 + 16 * b / 2) / (16 * b)))
  unfolding set_baudrate_internal
  set_baudrate_lem b a =
      let q = clock_freq / (16 * b) in
      let some_rate : not (b == 0) ≡ true = ground (arith, a.computes.positive) in
      let in_range : (q == 0 || ltb 0xffff q) ≡ false = ground (arith, a.low, a.high) in
      rw
        (
          lt→ltb _ _ a.computes.period,
          some_rate,
          lt→ltb _ _ a.computes.rounding,
          in_range,
          mod-eq_of_lt a.high,
          mod-eq_of_lt a.no_carry,
        )
        refl

  baudrate_Moves :
      (b : Option ℕ) (h : Held)
      → ((b' : ℕ) → b ≡ some b' → Accepts clock_freq b')
      → Moves D laws h (baud_held clock_freq b h) (if_some D b (set_baudrate_internal D clock_freq))
  unfolding if_some integer_after fraction_after
  baudrate_Moves none h accepts = same_Moves h
  baudrate_Moves (some b) h accepts =
      let a = accepts b refl in
      rw (set_baudrate_lem b a) (
        Runs-seq D laws (set_integer_Moves D laws _ h a.high)
          (set_fraction_Moves D laws _ (record h { integer = clock_freq / (16 * b) }) a.no_carry))

  some_Moves :
      {A : Type 0} (o : Option A) (f : A → Line → Line) (m : A → M D (Unit {0}))
      → ((a : A) (h : Held) → Moves D laws h (record h { line = f a h.line }) (m a))
      → (h : Held) → Moves D laws h (record h { line = change o f h.line }) (if_some D o m)
  unfolding if_some change
  some_Moves none f m each h = same_Moves h
  some_Moves (some a) f m each h = each a h

  set_fen_Moves :
      (v : ℕ) (h : Held)
      → v < 2
      → Moves D laws h (record h { line = record (h.line) { fen = v } }) (modify D lcr_h 4 1 v)
  set_fen_Moves v h lt =
      modify_line D laws 4 1 v (λ l. record l { fen = v }) h (λ r. put_fen_lt r v)
        (λ r. put_fen r v lt)

  data_bits-Moves :
      (b : DataBits) (h : Held)
      → Moves D laws h (record h { line = data_line b h.line }) (set_data_bits_internal D b)
  unfolding set_data_bits_internal data_line
  data_bits-Moves b h =
      modify_line D laws 5 2 (word_length b) (data_line b) h (λ r. put_wlen_lt r (word_length b))
        (λ r. put_wlen r (word_length b) (word_length_lt b))

  stop_bits-Moves :
      (b : StopBits) (h : Held)
      → Moves D laws h (record h { line = stop_line b h.line }) (set_stop_bits_internal D b)
  unfolding set_stop_bits_internal stop_line
  stop_bits-Moves one h =
      modify_line D laws 3 1 0 (stop_line one) h (λ r. put_stp2_lt r 0)
        (λ r. put_stp2 r 0 (omega arith))
  stop_bits-Moves two h =
      modify_line D laws 3 1 1 (stop_line two) h (λ r. put_stp2_lt r 1)
        (λ r. put_stp2 r 1 (omega arith))

  parity-Moves :
      (p : Parity) (h : Held)
      → Moves D laws h (record h { line = parity_line p h.line }) (set_parity_internal D p)
  unfolding set_parity_internal
  parity-Moves p h =
      update_line D laws (λ old. with_parity p old) (parity_line p) h (with_parity_lt p)
        (line_of-with_parity p)

  get_control :
      (h : Held)
      → Runs D laws h (λ a k. (is_set a 0 ≡ (h.enable == 1)) × (k ≡ h)) (λ _ _. ⊥) (get D cr)
  unfolding get is_set field
  get_control h = record {
    run = λ s e q. returns (
      (
        ap (λ v. v / 2 ^ 0 % 2 == 1) (laws.read_held cr s cr_holds) ∙ ap (λ k. k.enable == 1) e,
        held-after_read D laws cr s ∙ e,
      ),
      laws.sent_read cr s q,
    );
  }

  -- The end of `set_config`.
  reenable :
      (h : Held) (e : ℕ) (b : Bool)
      → b ≡ (e == 1)
      → e < 2
      → Moves D laws
          (record h { enable = 0 })
          (record h { enable = e })
          (if b then modify D cr 0 1 1 else (λ s. ok tt s))
  reenable h zero b same lt = rw same (same_Moves _)
  reenable h (suc zero) b same lt = rw same (modify_enable D laws 1 _ (omega arith))
  reenable h (suc (suc e)) b same lt = absurd (omega arith)

  pub set_config-Moves :
      (fuel : ℕ) (c : Config) (h : Held)
      → laws.drain ≤ fuel
      → ((b : ℕ) → c.baudrate ≡ some b → Accepts clock_freq b)
      → h.enable < 2
      → Moves D laws h (held_after clock_freq c h) (set_config D clock_freq fuel c)
  unfolding set_config line_after
  set_config-Moves fuel c h enough accepts lt = Runs-bind D laws (get_control h) (λ control k p.
      rw p.1 (
        modify_enable D laws 0 h (omega arith)
        ⨾ wait_idle-Moves D laws fuel _ refl enough
        ⨾ set_fen_Moves 0 _ (omega arith)
        ⨾ baudrate_Moves c.baudrate _ accepts
        ⨾ some_Moves c.data_bits data_line (set_data_bits_internal D) data_bits-Moves _
        ⨾ some_Moves c.stop_bits stop_line (set_stop_bits_internal D) stop_bits-Moves _
        ⨾ some_Moves c.parity parity_line (set_parity_internal D) parity-Moves _
        ⨾ set_fen_Moves 1 _ (omega arith)
        ⨾ reenable (held_after clock_freq c h) _ _ p.0 lt))

  -- Where the rate has no divisor of 16 bits, the code returns before it restores anything.
  refused_eq :
      (b : ℕ)
      → Computes clock_freq b
      → ltb 0 (clock_freq / (16 * b)) && ltb (clock_freq / (16 * b)) (2 ^ 16) ≡ false
      → set_baudrate_internal D clock_freq b ≡ (λ s. err invalid_baudrate s)
  unfolding set_baudrate_internal
  refused_eq b c out =
      let q = clock_freq / (16 * b) in
      let some_rate : not (b == 0) ≡ true = ground (arith, c.positive) in
      let refused : (q == 0 || ltb 0xffff q) ≡ true = ground (arith, out) in
      rw (lt→ltb _ _ c.period, some_rate, lt→ltb _ _ c.rounding, refused) refl

  refused_Runs :
      (b : Option ℕ) (b' : ℕ) (h : Held) (n : M D (Unit {0}))
      → b ≡ some b'
      → Computes clock_freq b'
      → ltb 0 (clock_freq / (16 * b')) && ltb (clock_freq / (16 * b')) (2 ^ 16) ≡ false
      → Runs D laws h
          (λ _ _. ⊥)
          (λ e k. (e ≡ invalid_baudrate) × (k ≡ h))
          (if_some D b (set_baudrate_internal D clock_freq) >> n)
  unfolding if_some
  refused_Runs b b' h n is c out =
      rw is (rw (refused_eq b' c out) (record { run = λ s e q. fails (refl, e) }))

  pub set_config_refused :
      (fuel : ℕ) (c : Config) (b : ℕ) (h : Held)
      → laws.drain ≤ fuel
      → c.baudrate ≡ some b
      → Computes clock_freq b
      → ltb 0 (clock_freq / (16 * b)) && ltb (clock_freq / (16 * b)) (2 ^ 16) ≡ false
      → Runs D laws h
          (λ _ _. ⊥)
          (λ e k. (e ≡ invalid_baudrate) × (k ≡ held_refused h))
          (set_config D clock_freq fuel c)
  unfolding set_config
  set_config_refused fuel c b h enough is computes out =
      Runs-bind D laws (get_control h) (λ control k p. rw p.1 (
        modify_enable D laws 0 h (omega arith)
        ⨾ wait_idle-Moves D laws fuel _ refl enough
        ⨾ set_fen_Moves 0 _ (omega arith)
        ⨾ refused_Runs c.baudrate b _ _ is computes out))

-- ===== src/Serial/Steps.antt =====
-- What the operations of a serial port do to the values that its registers hold.
use sparreal_os.Prelude.{
  ℕ, zero, suc, ◌^◌, ◌≤◌, ◌<◌, ◌≡◌, refl, ap, ◌∙◌, true, Bool-cases, inl, inr, lt→ltb, ltb→lt,
  arith,
}
use sparreal_os.Prelude.Fields.{field, is_set}
use sparreal_os.Prelude.Outcome.{ok, Ensures, returns, bind, ◌>>=◌, ◌>>◌}
use sparreal_os.Serial.Effects.{Line, line_of, put_enabled, put_enabled_implemented}
use sparreal_os.Serial.Registers.{
  Register, Device, DeviceLaws, fr, ibrd, fbrd, lcr_h, cr, ibrd_holds, fbrd_holds, lcr_h_holds,
  cr_holds, implemented, put_field,
}
use sparreal_os.Serial.{M, ConfigError, get, set, modify, wait_idle}

-- What the registers of the configuration hold.
pub record Held : Type 0 where
  pub line : Line
  pub enable : ℕ
  pub integer : ℕ
  pub fraction : ℕ

held_eq :
    {a b : Held}
    → a.line ≡ b.line
    → a.enable ≡ b.enable
    → a.integer ≡ b.integer
    → a.fraction ≡ b.fraction
    → a ≡ b
held_eq e f g h = λ i. record { line = e i; enable = f i; integer = g i; fraction = h i }

module _ (D : Device) (laws : DeviceLaws D) where
  abbrev pub held : D.State → Held
  held s = record {
    line = line_of (laws.value lcr_h s);
    enable = field (laws.value cr s) 0 1;
    integer = laws.value ibrd s;
    fraction = laws.value fbrd s;
  }

  -- Started where the registers hold `h` and no character waits to be sent, the code neither panics nor runs out of fuel, and what it
  -- answers and what the registers hold then are as `P` says, with none waiting, or `Q` where it fails.
  pub record Runs {A : Type 0} (h : Held) (P : A → Held → Type 0) (Q : ConfigError → Held → Type 0)
      (m : M D A) : Type 0 where
    pub run :
        (s : D.State)
        → held s ≡ h
        → laws.sent s ≡ true
        → Ensures (λ a s'. P a (held s') × (laws.sent s' ≡ true)) (λ e s'. Q e (held s')) (m s)

  abbrev pub Moves : Held → Held → M D (Unit {0}) → Type 0
  Moves h h' m = Runs h (λ _ k. k ≡ h') (λ _ _. ⊥) m

  pub Runs-bind :
      {A B : Type 0} {h : Held} {P : A → Held → Type 0} {P' : B → Held → Type 0}
      {Q : ConfigError → Held → Type 0} {m : M D A} {f : A → M D B}
      → Runs h P (λ _ _. ⊥) m
      → ((a : A) (k : Held) → P a k → Runs k P' Q (f a))
      → Runs h P' Q (m >>= f)
  Runs-bind r next = record {
    run = λ s e q.
        bind (r.run s e q) (λ a s' p. (next a (held s') p.0).run s' refl p.1) (λ _ _ no. absurd no);
  }

  pub Runs-seq :
      {B : Type 0} {h h' : Held} {P' : B → Held → Type 0} {Q : ConfigError → Held → Type 0}
      {m : M D (Unit {0})} {n : M D B}
      → Moves h h' m
      → Runs h' P' Q n
      → Runs h P' Q (m >> n)
  Runs-seq {h'} r next = record {
    run = λ s e q. bind (r.run s e q) (λ _ s' p. next.run s' p.0 p.1) (λ _ _ no. absurd no);
  }

  pub held-after_read : (r : Register) (s : D.State) → held (D.after_read r s) ≡ held s
  held-after_read r s =
      held_eq (ap line_of (laws.after_read_held lcr_h r s lcr_h_holds))
        (ap (λ v. field v 0 1) (laws.after_read_held cr r s cr_holds))
        (laws.after_read_held ibrd r s ibrd_holds) (laws.after_read_held fbrd r s fbrd_holds)

  held_line :
      (v : ℕ) (s : D.State)
      → implemented lcr_h v ≡ true
      → held (D.write lcr_h v s) ≡ record (held s) { line = line_of v }
  held_line v s h =
      held_eq (ap line_of (laws.write_self lcr_h v s lcr_h_holds h))
        (ap (λ v. field v 0 1) (laws.write_other cr lcr_h v s cr_holds (λ e. cc)))
        (laws.write_other ibrd lcr_h v s ibrd_holds (λ e. cc))
        (laws.write_other fbrd lcr_h v s fbrd_holds (λ e. cc))

  held_control :
      (v : ℕ) (s : D.State)
      → implemented cr v ≡ true
      → held (D.write cr v s) ≡ record (held s) { enable = field v 0 1 }
  held_control v s h =
      held_eq (ap line_of (laws.write_other lcr_h cr v s lcr_h_holds (λ e. cc)))
        (ap (λ v. field v 0 1) (laws.write_self cr v s cr_holds h))
        (laws.write_other ibrd cr v s ibrd_holds (λ e. cc))
        (laws.write_other fbrd cr v s fbrd_holds (λ e. cc))

  pub set_integer_Moves :
      (v : ℕ) (h : Held) → v < 2 ^ 16 → Moves h (record h { integer = v }) (set D ibrd v)
  unfolding set implemented
  set_integer_Moves v h lt = record {
    run = λ s e q. returns (
      held_eq
          (ap line_of (laws.write_other lcr_h ibrd v s lcr_h_holds (λ e. cc)) ∙ ap (λ k. k.line) e)
          (ap (λ v. field v 0 1) (laws.write_other cr ibrd v s cr_holds (λ e. cc))
            ∙ ap (λ k. k.enable) e)
          (laws.write_self ibrd v s ibrd_holds (lt→ltb v (2 ^ 16) lt))
          (laws.write_other fbrd ibrd v s fbrd_holds (λ e. cc) ∙ ap (λ k. k.fraction) e),
      laws.sent_write ibrd v s (λ e. cc) q,
    );
  }

  pub set_fraction_Moves :
      (v : ℕ) (h : Held) → v < 2 ^ 6 → Moves h (record h { fraction = v }) (set D fbrd v)
  unfolding set implemented
  set_fraction_Moves v h lt = record {
    run = λ s e q. returns (
      held_eq
          (ap line_of (laws.write_other lcr_h fbrd v s lcr_h_holds (λ e. cc)) ∙ ap (λ k. k.line) e)
          (ap (λ v. field v 0 1) (laws.write_other cr fbrd v s cr_holds (λ e. cc))
            ∙ ap (λ k. k.enable) e)
          (laws.write_other ibrd fbrd v s ibrd_holds (λ e. cc) ∙ ap (λ k. k.integer) e)
          (laws.write_self fbrd v s fbrd_holds (lt→ltb v (2 ^ 6) lt)),
      laws.sent_write fbrd v s (λ e. cc) q,
    );
  }

  -- A read and a write of the line control register.
  pub update_line :
      (u : ℕ → ℕ) (f : Line → Line) (h : Held)
      → ((r : ℕ) → r < 256 → u r < 256)
      → ((r : ℕ) → line_of (u r) ≡ f (line_of r))
      → Moves h (record h { line = f h.line }) (get D lcr_h >>= λ old. set D lcr_h (u old))
  unfolding get set implemented
  update_line u f h fits same = record {
    run = λ s e q.
        let old = D.read lcr_h s in
        let held_old : old ≡ laws.value lcr_h s = laws.read_held lcr_h s lcr_h_holds in
        let lt : laws.value lcr_h s < 256 =
          ltb→lt _ 256 (laws.value_implemented lcr_h s lcr_h_holds) in
        let s' = D.after_read lcr_h s in
        let before : held s' ≡ h = held-after_read lcr_h s ∙ e in
        returns (
          held_line (u old) s' (lt→ltb _ 256 (fits old (rw held_old lt)))
              ∙ held_eq (same old ∙ ap f (ap line_of held_old ∙ ap (λ k. k.line) e))
                  (ap (λ k. k.enable) before) (ap (λ k. k.integer) before)
                  (ap (λ k. k.fraction) before),
          laws.sent_write lcr_h (u old) s' (λ e. cc) (laws.sent_read lcr_h s q),
        );
  }

  pub modify_line :
      (o w v : ℕ) (f : Line → Line) (h : Held)
      → ((r : ℕ) → r < 256 → put_field r o w v < 256)
      → ((r : ℕ) → line_of (put_field r o w v) ≡ f (line_of r))
      → Moves h (record h { line = f h.line }) (modify D lcr_h o w v)
  unfolding modify
  modify_line o w v f h fits same = update_line (λ r. put_field r o w v) f h fits same

  pub modify_enable :
      (v : ℕ) (h : Held) → v < 2 → Moves h (record h { enable = v }) (modify D cr 0 1 v)
  unfolding modify get set
  modify_enable v h lt = record {
    run = λ s e q.
        let old = D.read cr s in
        let held_old : old ≡ laws.value cr s = laws.read_held cr s cr_holds in
        let s' = D.after_read cr s in
        let before : held s' ≡ h = held-after_read cr s ∙ e in
        returns (
          held_control (put_field old 0 1 v) s' (
                put_enabled_implemented old v
                  (ap (implemented cr) held_old ∙ laws.value_implemented cr s cr_holds))
              ∙ held_eq (ap (λ k. k.line) before) (put_enabled old v lt)
                  (ap (λ k. k.integer) before) (ap (λ k. k.fraction) before),
          laws.sent_write cr (put_field old 0 1 v) s' (λ e. cc) (laws.sent_read cr s q),
        );
  }

  wait_idle_lem :
      (fuel : ℕ) (s : D.State)
      → laws.sent s ≡ true
      → field (laws.value cr s) 0 1 ≡ 0
      → laws.quiet s < fuel
      → (s' : D.State) × (wait_idle D fuel s ≡ ok tt s')
        × (held s' ≡ held s)
        × (laws.sent s' ≡ true)
  unfolding wait_idle get
  wait_idle_lem zero s q off lt = absurd (omega arith)
  wait_idle_lem (suc fuel) s q off lt =
      let s' = D.after_read fr s in
      let same : held s' ≡ held s = held-after_read fr s in
      elim (Bool-cases (is_set (D.read fr s) 3)) [
        | inl busy ↦
            let (s'', eq, same', q') =
              wait_idle_lem fuel s' (laws.sent_read fr s q) (ap (λ k. k.enable) same ∙ off)
                (omega (arith, laws.busy_ends s q off busy)) in
            (s'', rw busy eq, same' ∙ same, q')
        | inr idle ↦ (s', rw idle refl, same, laws.sent_read fr s q)
      ]

  pub wait_idle-Moves :
      (fuel : ℕ) (h : Held) → h.enable ≡ 0 → laws.drain ≤ fuel → Moves h h (wait_idle D fuel)
  wait_idle-Moves fuel h off enough = record {
    run = λ s e q.
        let (s', eq, same, q') =
          wait_idle_lem fuel s q (ap (λ k. k.enable) e ∙ off) (omega (arith, laws.quiet_lt s q)) in
        rw eq (returns (same ∙ e, q'));
  }

-- ===== src/Sync/Exclusion.antt =====
-- crates/sparreal-kernel/src/os/sync/spinlock.rs: the processors that hold the lock, and their
-- interrupt flags.
use sparreal_os.Prelude.{
  ℕ, zero, suc, ◌≡◌, refl, sym, ap, ◌∙◌, subst, Bool, true, false, ◌==◌, if◌then◌else◌, arith,
  Bool-cases, inl, inr,
}
use sparreal_os.Sync.{
  Place, idle, panicked, attempting, masked, failed, holding, unlocked, Lock, put, restore, advance,
  Reachable, start, step, set_irq,
}

abbrev pub is_holding : Place → Bool
is_holding (holding is_enabled) = true
is_holding _ = false

-- The places between the saving of the flag and its restoration.
abbrev pub is_masked : Place → Bool
is_masked (masked left is_enabled) = true
is_masked (failed left is_enabled) = true
is_masked (holding is_enabled) = true
is_masked (unlocked is_enabled) = true
is_masked _ = false

pub record Exclusive (s : Lock) : Type 0 where
  pub one : (c d : ℕ) → is_holding (s.place c) ≡ true → is_holding (s.place d) ≡ true → c ≡ d
  pub taken : (c : ℕ) → is_holding (s.place c) ≡ true → s.locked ≡ true
  pub irq_off : (c : ℕ) → is_masked (s.place c) ≡ true → s.irq_enabled c ≡ false

holding-is_masked : (p : Place) → is_holding p ≡ true → is_masked p ≡ true
holding-is_masked (holding e) h = refl
holding-is_masked idle h = h
holding-is_masked panicked h = h
holding-is_masked (attempting n) h = h
holding-is_masked (masked n e) h = refl
holding-is_masked (failed n e) h = refl
holding-is_masked (unlocked e) h = refl

put-apply :
    {A : Type 0} (g : A → Bool) (c : ℕ) (v : A) (f : ℕ → A) (d : ℕ)
    → g (put c v f d) ≡ (if d == c then g v else g (f d))
put-apply g c v f d = elim (Bool-cases (d == c)) [ inl e ↦ rw e | inr e ↦ rw e ]

-- Who holds the lock after `c` moves to a place where it does not, held it before.
held_before :
    (c d : ℕ) (p : Place) (f : ℕ → Place)
    → is_holding p ≡ false
    → is_holding (put c p f d) ≡ true
    → (d ≡ c → ⊥) × (is_holding (f d) ≡ true)
held_before c d p f free h = let at = put-apply is_holding c p f d in ground arith

-- A step of `c` to a place where it does not hold the lock, which leaves the lock as it is.
moved :
    (c : ℕ) (p : Place) (irq : Bool) (s : Lock)
    → Exclusive s
    → is_holding p ≡ false
    → (is_masked p ≡ true → irq ≡ false)
    → Exclusive (record s { irq_enabled = put c irq s.irq_enabled; place = put c p s.place })
moved c p irq s ex free off = record {
  one = λ d e hd he.
      ex.one d e (held_before c d p s.place free hd).1 (held_before c e p s.place free he).1;
  taken = λ d hd. ex.taken d (held_before c d p s.place free hd).1;
  irq_off = λ d hd.
      let at = put-apply is_masked c p s.place d in
      let flag = put-apply (λ b. b) c irq s.irq_enabled d in
      let before = ex.irq_off d in ground arith;
}

-- Processor `c` takes a free lock.
took :
    (c : ℕ) (is_enabled : Bool) (s : Lock)
    → Exclusive s
    → s.locked ≡ false
    → s.irq_enabled c ≡ false
    → Exclusive (record s { locked = true; place = put c (holding is_enabled) s.place })
took c is_enabled s ex free off = record {
  one = λ d e hd he. only d hd ∙ sym (only e he);
  taken = λ d hd. refl;
  irq_off = λ d hd.
      let at = put-apply is_masked c (holding is_enabled) s.place d in
      let before = ex.irq_off d in
      elim (Bool-cases (d == c)) [
        | inl e ↦ let same : d ≡ c = ground arith in ap s.irq_enabled same ∙ off
        | inr e ↦ before (ground arith)
      ];
}
  where
    only : (d : ℕ) → is_holding (put c (holding is_enabled) s.place d) ≡ true → d ≡ c
    only d hd =
        let at = put-apply is_holding c (holding is_enabled) s.place d in
        let before = ex.taken d in ground arith

-- The holder `c` lets the lock go.
released :
    (c : ℕ) (is_enabled : Bool) (s : Lock)
    → Exclusive s
    → is_holding (s.place c) ≡ true
    → Exclusive (record s { locked = false; place = put c (unlocked is_enabled) s.place })
released c is_enabled s ex held = record {
  one = λ d e hd he. absurd (none_left d hd);
  taken = λ d hd. absurd (none_left d hd);
  irq_off = λ d hd.
      let at = put-apply is_masked c (unlocked is_enabled) s.place d in
      let before = ex.irq_off d in
      elim (Bool-cases (d == c)) [
        | inl e ↦
            let same : d ≡ c = ground arith in
            ap s.irq_enabled same ∙ ex.irq_off c (holding-is_masked (s.place c) held)
        | inr e ↦ before (ground arith)
      ];
}
  where
    none_left : (d : ℕ) → is_holding (put c (unlocked is_enabled) s.place d) ≡ true → ⊥
    none_left d hd =
        let (other, before) = held_before c d (unlocked is_enabled) s.place refl hd in
        other (ex.one d c before held)

-- A step of `c` that leaves the lock and its flag as they are.
stayed :
    (c : ℕ) (p : Place) (s : Lock)
    → Exclusive s
    → is_holding p ≡ false
    → (is_masked p ≡ true → s.irq_enabled c ≡ false)
    → Exclusive (record s { place = put c p s.place })
stayed c p s ex free off = record {
  one = λ d e hd he.
      ex.one d e (held_before c d p s.place free hd).1 (held_before c e p s.place free he).1;
  taken = λ d hd. ex.taken d (held_before c d p s.place free hd).1;
  irq_off = λ d hd.
      let at = put-apply is_masked c p s.place d in
      let before = ex.irq_off d in
      elim (Bool-cases (d == c)) [
        | inl e ↦ let same : d ≡ c = ground arith in ap s.irq_enabled same ∙ off (ground arith)
        | inr e ↦ before (ground arith)
      ];
}

advance-Exclusive :
    (c : ℕ) (p : Place) (s : Lock) → s.place c ≡ p → Exclusive s → Exclusive (advance c p s)
unfolding advance
advance-Exclusive c idle s at ex = stayed c (attempting 100) s ex refl (λ h. ground arith)
advance-Exclusive c panicked s at ex = ex
advance-Exclusive c (attempting zero) s at ex = stayed c panicked s ex refl (λ h. ground arith)
advance-Exclusive c (attempting (suc left)) s at ex =
    moved c (masked left (s.irq_enabled c)) false s ex refl (λ h. refl)
advance-Exclusive c (masked left is_enabled) s at ex =
    let off : s.irq_enabled c ≡ false = ex.irq_off c (ap is_masked at) in
    let tried : Bool → Lock = λ b.
      if b
      then record s { place = put c (failed left is_enabled) s.place }
      else record s { locked = true; place = put c (holding is_enabled) s.place } in
    elim (Bool-cases s.locked) [
      | inl e ↦
          subst (λ b. Exclusive (tried b)) (sym e)
            (stayed c (failed left is_enabled) s ex refl (λ h. off))
      | inr e ↦ subst (λ b. Exclusive (tried b)) (sym e) (took c is_enabled s ex e off)
    ]
advance-Exclusive c (failed left is_enabled) s at ex =
    moved c (attempting left) (restore is_enabled (s.irq_enabled c)) s ex refl (λ h. ground arith)
advance-Exclusive c (holding is_enabled) s at ex = released c is_enabled s ex (ap is_holding at)
advance-Exclusive c (unlocked is_enabled) s at ex =
    moved c idle (restore is_enabled (s.irq_enabled c)) s ex refl (λ h. ground arith)

-- In every order of steps of the processors, at most one of them holds the lock; while one does, the
-- lock is marked as taken; and a processor that holds it has its interrupts off.
pub Reachable-Exclusive : (s : Lock) → Reachable s → Exclusive s
Reachable-Exclusive s (start irq) = record {
  one = λ c d hc hd. ground arith;
  taken = λ c hc. ground arith;
  irq_off = λ c hc. ground arith;
}
Reachable-Exclusive s (step c {s = before} r) =
    advance-Exclusive c (before.place c) before refl (Reachable-Exclusive before r)
Reachable-Exclusive s (set_irq c enabled {s = before} r at) =
    let ex = Reachable-Exclusive before r in
    record {
      one = ex.one;
      taken = ex.taken;
      irq_off = λ d hd.
          let flag = put-apply (λ b. b) c enabled before.irq_enabled d in
          let old = ex.irq_off d hd in
          elim (Bool-cases (d == c)) [
            | inl e ↦
                let same : d ≡ c = ground arith in
                let not_masked : is_masked (before.place d) ≡ false =
                  ap (λ x. is_masked (before.place x)) same ∙ ap is_masked at in
                absurd (ground arith)
            | inr e ↦ ground arith
          ];
    }

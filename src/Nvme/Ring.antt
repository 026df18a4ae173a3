-- ===== src/Nvme/Ring.antt =====
-- driver/block/nvme/src/queue.rs: the completion ring as a sequence. The device posts completion
-- number `n` into slot `n % len`, with a phase bit that changes each time round, as the NVMe
-- specification has it; the driver's head and phase stand for the number of completions taken.
use native.Mathlib.Nat.{
  div-add-mod', mod-lt, mod-eq_of_lt, mul-add-mod_self_right, mul-add-div_right, mul-le-mul_right,
  add-mul, div-eq_of_lt,
}
use sparreal_os.Prelude.{
  ℕ, zero, suc, ◌+◌, ◌-◌, ◌*◌, ◌/◌, ◌%◌, ◌≤◌, ◌<◌, ◌≡◌, ◌≢◌, refl, sym, ap, subst, ◌∙◌, Bool, true,
  false, not, ◌==◌, ltb, leb, none, some, List, length, set, get_elem?, replicate, length-set,
  length-replicate, get_elem?-set_self, get_elem?-set_ne, arith, Bool-cases, inl, inr, ◌⊎◌,
}
use sparreal_os.Nvme.Commands.{u32_mod}
use sparreal_os.Nvme.Queues.{NvmeCompletion, CompleteQueue, phase_of, differ, complete, advance}

abbrev pub blank : NvmeCompletion
blank = record { result = 0; sq_head = 0; sq_id = 0; command_id = 0; status = 0 }

-- The time round of a completion is odd.
unfoldable pub odd_round : ℕ → ℕ → Bool
odd_round len n = n / len % 2 == 1

-- The ring after `n` completions are posted.
unfoldable pub ring : ℕ → (ℕ → NvmeCompletion) → ℕ → List NvmeCompletion
ring len entry zero = replicate len blank
ring len entry (suc n) = set (ring len entry n) (n % len) (entry n)

replicate_get : (n : ℕ) (c : NvmeCompletion) (i : ℕ) → i < n → get_elem? (replicate n c) i ≡ some c
replicate_get zero c i h = absurd (omega arith)
replicate_get (suc n) c zero h = refl
replicate_get (suc n) c (suc i) h = replicate_get n c i (omega arith)

differ-not : (b : Bool) → differ (not b) b ≡ true
differ-not true = refl
differ-not false = refl

differ_same : (b : Bool) → differ b b ≡ false
differ_same true = refl
differ_same false = refl

module _ (len : ℕ) (pos : 0 < len) where
  -- Two numbers less than a round apart stand in different slots.
  slots_differ : (p n : ℕ) → p < n → n < p + len → n % len ≢ p % len
  slots_differ p n lo hi same =
      let en = div-add-mod' n len in
      let ep = div-add-mod' p len in
      elim (Bool-cases (leb (n / len) (p / len))) [
        | inl e ↦
            let le = mul-le-mul_right {m = n / len} {n = p / len} len (ground arith) in
            absurd (omega arith)
        | inr e ↦
            let le = mul-le-mul_right {m = suc (p / len)} {n = n / len} len (ground arith) in
            let split : suc (p / len) * len ≡ p / len * len + len =
              omega (arith, add-mul 1 (p / len) len) in
            absurd (omega arith)
      ]

  -- The next number stands in the next slot, or begins the next round.
  next_slot :
      (p : ℕ)
      → (p % len + 1 < len) × (suc p % len ≡ p % len + 1) × (suc p / len ≡ p / len)
        ⊎ (p % len + 1 ≡ len) × (suc p % len ≡ 0) × (suc p / len ≡ suc (p / len))
  next_slot p =
      let ep = div-add-mod' p len in
      let small = mod-lt p pos in
      elim (Bool-cases (ltb (p % len + 1) len)) [
        | inl e ↦
            let at : suc p ≡ p / len * len + (p % len + 1) = omega arith in
            let less : p % len + 1 < len = ground arith in
            inl (
              less,
              ap (λ n. n % len) at ∙ mul-add-mod_self_right (p / len) len _ ∙ mod-eq_of_lt less,
              ap (λ n. n / len) at
                  ∙ mul-add-div_right pos (p / len) _
                  ∙ omega (arith, div-eq_of_lt less),
            )
        | inr e ↦
            let last : p % len + 1 ≡ len = ground arith in
            let split : suc (p / len) * len ≡ p / len * len + len =
              omega (arith, add-mul 1 (p / len) len) in
            let at : suc p ≡ suc (p / len) * len + 0 = omega arith in
            inr (
              last,
              ap (λ n. n % len) at
                  ∙ mul-add-mod_self_right (suc (p / len)) len 0
                  ∙ mod-eq_of_lt pos,
              ap (λ n. n / len) at
                  ∙ mul-add-div_right pos (suc (p / len)) 0
                  ∙ omega (arith, div-eq_of_lt pos),
            )
      ]

  pub length-ring : (entry : ℕ → NvmeCompletion) (n : ℕ) → length (ring len entry n) ≡ len
  unfolding ring
  length-ring entry zero = length-replicate len blank
  length-ring entry (suc n) =
      length-set (ring len entry n) (n % len) (entry n) ∙ length-ring entry n

  -- A completion that is posted and not a round old stands in its slot.
  ring_posted :
      (entry : ℕ → NvmeCompletion) (p n : ℕ)
      → p < n
      → n ≤ p + len
      → get_elem? (ring len entry n) (p % len) ≡ some (entry p)
  unfolding ring
  ring_posted entry p zero lo hi = absurd (omega arith)
  ring_posted entry p (suc n) lo hi = elim (Bool-cases (p == n)) [
    | inl e ↦
        let at : p ≡ n = ground arith in
        let bound : n % len < length (ring len entry n) =
          omega (arith, mod-lt n pos, length-ring entry n) in
        rw at (get_elem?-set_self (ring len entry n) (n % len) (entry n) bound)
    | inr e ↦
        let before : p < n = ground arith in
        get_elem?-set_ne (ring len entry n) (entry n) (slots_differ p n before (omega arith))
        ∙ ring_posted entry p n before (omega arith)
  ]

  ring-blank :
      (entry : ℕ → NvmeCompletion) (p n : ℕ)
      → n ≤ p
      → p < len
      → get_elem? (ring len entry n) (p % len) ≡ some blank
  unfolding ring
  ring-blank entry p zero lo hi = replicate_get len blank (p % len) (mod-lt p pos)
  ring-blank entry p (suc n) lo hi =
      get_elem?-set_ne (ring len entry n) (entry n)
        (λ same. slots_differ n p (omega arith) (omega arith) (sym same))
      ∙ ring-blank entry p n (omega arith) hi

  -- The device's side of the phase bit: set in the first round, clear in the second, and so on.
  abbrev pub Phased : (ℕ → NvmeCompletion) → Type 0
  Phased entry = (n : ℕ) → phase_of (entry n).status ≡ not (odd_round len n)

  -- The driver has taken `p` completions.
  pub record Taken (p : ℕ) (cq : CompleteQueue) : Type 0 where
    pub head : cq.head ≡ p % len
    pub phase : cq.phase ≡ odd_round len p

  first_round : (p : ℕ) → p < len → odd_round len p ≡ false
  unfolding odd_round
  first_round p h = rw (div-eq_of_lt h)

  odd_suc : (n : ℕ) → ((1 + n) % 2 == 1) ≡ not (n % 2 == 1)
  odd_suc n = ground arith

  round_before :
      (q : ℕ) → ((len + q) % len ≡ q % len) × (odd_round len (len + q) ≡ not (odd_round len q))
  unfolding odd_round
  round_before q =
      let at : len + q ≡ 1 * len + q = omega arith in
      (
        ap (λ n. n % len) at ∙ mul-add-mod_self_right 1 len q,
        ap (λ n. n / len % 2 == 1) at
            ∙ ap (λ n. n % 2 == 1) (mul-add-div_right pos 1 q)
            ∙ odd_suc (q / len),
      )

  -- What the driver sees of the next completion: none until it is posted, and then the completion.
  pub complete-none :
      (entry : ℕ → NvmeCompletion) (p : ℕ) (cq : CompleteQueue)
      → Phased entry
      → Taken p cq
      → complete (ring len entry p) cq ≡ none
  unfolding complete phase_of
  complete-none entry p cq phased taken = elim (Bool-cases (ltb p len)) [
    | inl e ↦
        let first : odd_round len p ≡ false = first_round p (ground arith) in
        let at = ring-blank entry p p (omega arith) (ground arith) in
        rw (complete, taken.head, at, taken.phase, first) refl
    | inr e ↦
        let q = p - len in
        let back : len + q ≡ p = ground arith in
        let (slot, turned) = round_before q in
        let at : get_elem? (ring len entry p) (p % len) ≡ some (entry q) =
          subst (λ i. get_elem? (ring len entry p) i ≡ some (entry q))
            (sym slot ∙ ap (λ n. n % len) back)
            (ring_posted entry q p (omega arith) (omega arith)) in
        let turned' : odd_round len p ≡ not (odd_round len q) =
          ap (odd_round len) (sym back) ∙ turned in
        rw (complete, taken.head, at, taken.phase, phased q, turned')
          (rw (differ_same (not (odd_round len q))))
  ]

  pub complete-some :
      (entry : ℕ → NvmeCompletion) (p : ℕ) (cq : CompleteQueue)
      → Phased entry
      → Taken p cq
      → complete (ring len entry (suc p)) cq ≡ some (entry p)
  unfolding complete
  complete-some entry p cq phased taken =
      let at = ring_posted entry p (suc p) (omega arith) (omega arith) in
      rw (complete, taken.head, at, taken.phase, phased p) (rw (differ-not (odd_round len p)))

  pub advance-Taken :
      (p : ℕ) (cq : CompleteQueue) → len < u32_mod → Taken p cq → Taken (suc p) (advance len cq)
  unfolding advance odd_round
  advance-Taken p cq small taken = elim (next_slot p) [
    | inl (less, slot, same_round) ↦
        let go : leb (len % u32_mod) (cq.head + 1) ≡ false = ground (arith, taken.head) in
        rw go (record { head = omega (arith, taken.head); phase = rw (taken.phase, same_round) })
    | inr (last, slot, next_round) ↦
        let go : leb (len % u32_mod) (cq.head + 1) ≡ true = ground (arith, taken.head) in
        rw go (record {
          head = sym slot;
          phase =
              rw (taken.phase, next_round)
                (sym (odd_suc (p / len)) ∙ ap (λ n. n % 2 == 1) (omega arith));
        })
  ]

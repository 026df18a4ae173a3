-- ===== src/Gic/Distributor/Fills.antt =====
-- The loops that write one value to a run of registers.
use sparreal_os.Prelude.{
  ℕ, zero, suc, ◌+◌, ◌*◌, ◌/◌, ◌%◌, ◌≤◌, ◌<◌, ◌≡◌, ◌≢◌, refl, ◌∙◌, Bool, true, false, ◌&&◌, lt→ltb,
  ==_self, arith, ◌⊎◌, inl, inr,
}
use sparreal_os.Prelude.BitAt.{bit_at, bit_at-ones}
use sparreal_os.Prelude.Outcome.{ok}
use sparreal_os.Gic.Registers.{
  Device, DeviceLaws, Bank, bank_len, Status, set_bank, clear_bank, Holds, fill, set_register,
  typer, sgir,
}

module _ (D : Device) where
  pub set_register_lem :
      (b : Bank) (i v : ℕ) (s : D.State)
      → i < bank_len b
      → set_register D b i v s ≡ ok tt (D.write b i v s)
  unfolding set_register
  set_register_lem b i v s h = rw (lt→ltb i (bank_len b) h)

  -- The state after a loop.
  unfoldable pub after_fill : Bank → ℕ → (start n : ℕ) → D.State → D.State
  after_fill b v start zero s = s
  after_fill b v start (suc n) s = after_fill b v (start + 1) n (D.write b start v s)

  pub fill-after_fill :
      (b : Bank) (v start n : ℕ) (s : D.State)
      → start + n ≤ bank_len b
      → fill D b v start n s ≡ ok tt (after_fill b v start n s)
  unfolding fill after_fill
  fill-after_fill b v start zero s h = refl
  fill-after_fill b v start (suc n) s h =
      rw (set_register_lem b start v s (omega (arith, h)))
        (fill-after_fill b v (start + 1) n (D.write b start v s) (omega (arith, h)))

module _ (D : Device) (laws : DeviceLaws D) where
  pub after_fill_typer :
      (b : Bank) (v start n : ℕ) (s : D.State)
      → D.read typer 0 (after_fill D b v start n s) ≡ D.read typer 0 s
  unfolding after_fill
  after_fill_typer b v start zero s = refl
  after_fill_typer b v start (suc n) s =
      after_fill_typer b v (start + 1) n (D.write b start v s) ∙ laws.read_typer b start v s

  -- A register that the loop does not write.
  pub after_fill_other :
      (b b' : Bank) (v start n i : ℕ) (s : D.State)
      → Holds b
      → (b' ≢ b) ⊎ (i < start) ⊎ (start + n ≤ i)
      → D.read b i (after_fill D b' v start n s) ≡ D.read b i s
  unfolding after_fill
  after_fill_other b b' v start zero i s holds out = refl
  after_fill_other b b' v start (suc n) i s holds out =
      after_fill_other b b' v (start + 1) n i (D.write b' start v s) holds (shift out)
      ∙ laws.read_other b b' i start v s holds (λ (eb, ei). apart eb ei out)
    where
      shift :
          (b' ≢ b) ⊎ (i < start) ⊎ (start + suc n ≤ i)
          → (b' ≢ b) ⊎ (i < start + 1) ⊎ (start + 1 + n ≤ i)
      shift (inl ne) = inl ne
      shift (inr (inl low)) = inr (inl (omega (arith, low)))
      shift (inr (inr high)) = inr (inr (omega (arith, high)))

      apart : b' ≡ b → start ≡ i → (b' ≢ b) ⊎ (i < start) ⊎ (start + suc n ≤ i) → ⊥
      apart eb ei (inl ne) = ne eb
      apart eb ei (inr (inl low)) = omega (arith, ei, low)
      apart eb ei (inr (inr high)) = omega (arith, ei, high)

  -- A register that the loop writes, where it implements the value.
  pub after_fill_self :
      (b : Bank) (v start n i : ℕ) (s : D.State)
      → Holds b
      → laws.keeps b i v ≡ true
      → start ≤ i
      → i < start + n
      → D.read b i (after_fill D b v start n s) ≡ v
  unfolding after_fill
  after_fill_self b v start zero i s holds keeps low high = absurd (omega arith)
  after_fill_self b v start (suc n) i s holds keeps low high = elim (first-cases start i low) [
    | inl e ↦
        after_fill_other b b v (start + 1) n i (D.write b start v s) holds (inr (inl (omega arith)))
        ∙ rw (← e) (laws.read_self b start v s holds (rw e keeps))
    | inr more ↦
        after_fill_self b v (start + 1) n i (D.write b start v s) holds keeps more (omega arith)
  ]
    where
      first-cases : (start i : ℕ) → start ≤ i → (start ≡ i) ⊎ (start + 1 ≤ i)
      first-cases start i low = ground arith

  -- A status is not touched by a loop over other registers.
  pub after_fill_status :
      (st : Status) (b : Bank) (v start n id : ℕ) (s : D.State)
      → b ≢ set_bank st
      → b ≢ clear_bank st
      → b ≢ sgir
      → laws.on st id (after_fill D b v start n s) ≡ laws.on st id s
  unfolding after_fill
  after_fill_status st b v start zero id s ne ne' other = refl
  after_fill_status st b v start (suc n) id s ne ne' other =
      after_fill_status st b v (start + 1) n id (D.write b start v s) ne ne' other
      ∙ laws.write_other st b start v id s ne ne' other

  -- A status that is off stays off while others are switched off.
  pub after_fill_off :
      (st : Status) (v start n id : ℕ) (s : D.State)
      → laws.writable st id ≡ true
      → laws.on st id s ≡ false
      → laws.on st id (after_fill D (clear_bank st) v start n s) ≡ false
  unfolding after_fill
  after_fill_off st v start zero id s can off = off
  after_fill_off st v start (suc n) id s can off =
      after_fill_off st v (start + 1) n id (D.write (clear_bank st) start v s) can
        (laws.write_clear st start v id s can ∙ rw off)

  -- A loop that writes all ones switches the status off for the interrupts of its registers.
  pub after_fill_clear :
      (st : Status) (start n id : ℕ) (s : D.State)
      → laws.writable st id ≡ true
      → start * 32 ≤ id
      → id < (start + n) * 32
      → laws.on st id (after_fill D (clear_bank st) 0xffff_ffff start n s) ≡ false
  unfolding after_fill
  after_fill_clear st start zero id s can low high = absurd (omega arith)
  after_fill_clear st start (suc n) id s can low high = elim (word-cases start id low) [
    | inl e ↦
        after_fill_off st 0xffff_ffff (start + 1) n id (D.write (clear_bank st) start 0xffff_ffff s)
          can
          (laws.write_clear st start 0xffff_ffff id s can
            ∙ rw (e, ==_self start, all_ones (id % 32) (omega arith)) (&&_false _))
    | inr more ↦
        after_fill_clear st (start + 1) n id (D.write (clear_bank st) start 0xffff_ffff s) can more
          (omega arith)
  ]
    where
      word-cases : (start id : ℕ) → start * 32 ≤ id → (id / 32 ≡ start) ⊎ ((start + 1) * 32 ≤ id)
      word-cases start id low = ground arith

      all_ones : (k : ℕ) → k < 32 → bit_at 0xffff_ffff k ≡ true
      all_ones k h = bit_at-ones k 32 ∙ lt→ltb k 32 h

      &&_false : (b : Bool) → (b && false) ≡ false
      &&_false b = ground arith

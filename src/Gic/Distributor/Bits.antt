-- ===== src/Gic/Distributor/Bits.antt =====
-- The accesses to the bits of one interrupt.
use sparreal_os.Prelude.{
  ℕ, ◌+◌, ◌*◌, ◌/◌, ◌%◌, ◌^◌, ◌<◌, ◌≡◌, refl, ◌∙◌, Bool, true, false, ◌&&◌, lt→ltb, ◌==◌,
  if◌then◌else◌, arith,
}
use sparreal_os.Prelude.BitAt.{bit_at-pow, bit_and-pow}
use sparreal_os.Prelude.Outcome.{ok}
use sparreal_os.Gic.Distributor.{set_status, is_status}
use sparreal_os.Gic.Distributor.Fills.{set_register_lem}
use sparreal_os.Gic.Registers.{
  Device, DeviceLaws, Bank, Status, enabled, pending, active, set_bank, clear_bank, bank_len,
  get_register, set_irq_bit, get_irq_bit,
}

-- Two interrupts are the same where their registers and their bits are.
pub same_bit : (i j : ℕ) → ((i / 32 == j / 32) && (i % 32 == j % 32)) ≡ (i == j)
same_bit i j = ground arith

pub same_cfg : (i j : ℕ) → i / 16 ≡ j / 16 → (i % 16 * 2 + 1 == j % 16 * 2 + 1) ≡ (i == j)
same_cfg i j h = ground arith

module _ (D : Device) where
  pub get_register_lem :
      (b : Bank) (i : ℕ) (s : D.State) → i < bank_len b → get_register D b i s ≡ ok (D.read b i s) s
  unfolding get_register
  get_register_lem b i s h = rw (lt→ltb i (bank_len b) h)

  pub status_len :
      (st : Status) (id : ℕ)
      → id < 1024
      → (id / 32 < bank_len (set_bank st)) × (id / 32 < bank_len (clear_bank st))
  unfolding bank_len
  status_len enabled id h = omega arith
  status_len pending id h = omega arith
  status_len active id h = omega arith

  module _ (laws : DeviceLaws D) where
    pub is_status_lem :
        (st : Status) (id : ℕ) (s : D.State)
        → id < 1024
        → is_status D st id s ≡ ok (laws.on st id s) s
    unfolding is_status get_irq_bit
    is_status_lem st id s h =
        let split : id / 32 * 32 + id % 32 ≡ id = omega arith in
        rw
          (
            get_register_lem (set_bank st) (id / 32) s (status_len st id h).0,
            bit_and-pow (id % 32) (D.read (set_bank st) (id / 32) s),
            laws.read_status st (id / 32) (id % 32) s (omega arith),
            split,
          )
          refl

    -- The state after `set_status`.
    unfoldable pub written : Status → ℕ → Bool → D.State → D.State
    written st id true s = D.write (set_bank st) (id / 32) (2 ^ (id % 32)) s
    written st id false s = D.write (clear_bank st) (id / 32) (2 ^ (id % 32)) s

    pub set_status_lem :
        (st : Status) (id : ℕ) (e : Bool) (s : D.State)
        → id < 1024
        → set_status D st id e s ≡ ok tt (written st id e s)
    unfolding set_status set_irq_bit written
    set_status_lem st id true s h =
        set_register_lem D (set_bank st) (id / 32) _ s (status_len st id h).0
    set_status_lem st id false s h =
        set_register_lem D (clear_bank st) (id / 32) _ s (status_len st id h).1

    pub on-written :
        (st : Status) (id j : ℕ) (e : Bool) (s : D.State)
        → laws.writable st j ≡ true
        → laws.on st j (written st id e s) ≡ (if j == id then e else laws.on st j s)
    unfolding written
    on-written st id j true s can =
        laws.write_set st (id / 32) (2 ^ (id % 32)) j s can
        ∙ rw (bit_at-pow (j % 32) (id % 32), same_bit j id) (ground arith)
    on-written st id j false s can =
        laws.write_clear st (id / 32) (2 ^ (id % 32)) j s can
        ∙ rw (bit_at-pow (j % 32) (id % 32), same_bit j id) (ground arith)

-- ===== src/Serial/Registers.antt =====
-- driver/serial/src/pl011.rs: the registers. The device behind them is a parameter: a state that
-- reads and writes act on, since a read takes a character out of the receive queue or sees that time
-- has passed. What it is taken to do is what the PL011 manual says of these registers.
use sparreal_os.Prelude.{ℕ, ◌+◌, ◌*◌, ◌/◌, ◌%◌, ◌^◌, ◌<◌, ◌≡◌, ◌≢◌, Bool, true, ◌&&◌, ltb}
use sparreal_os.Prelude.Fields.{field, is_set}

-- `Pl011Registers`
pub data Register : Type 0 where
  dr rsr_ecr fr ilpr ibrd fbrd lcr_h cr ifls imsc ris mis icr dmacr : Register

-- `modify` of one field: the other bits keep their values.
unfoldable pub put_field : (register offset width v : ℕ) → ℕ
put_field register offset width v =
    register / 2 ^ (offset + width) * 2 ^ (offset + width)
    + v % 2 ^ width * 2 ^ offset
    + register % 2 ^ offset

pub record Device : Type 1 where
  pub State : Type 0
  pub read : Register → State → ℕ
  pub after_read : Register → State → State
  pub write : Register → ℕ → State → State

-- The registers that hold what is written to them.
pub data Holds : Register → Type 0 where
  ibrd_holds : Holds ibrd
  fbrd_holds : Holds fbrd
  lcr_h_holds : Holds lcr_h
  cr_holds : Holds cr

-- The values that have no bit outside the fields of the register.
unfoldable pub implemented : Register → ℕ → Bool
implemented ibrd v = ltb v (2 ^ 16)
implemented fbrd v = ltb v (2 ^ 6)
implemented lcr_h v = ltb v (2 ^ 8)
implemented cr v = ltb v (2 ^ 16) && ltb (v % 2 ^ 7) (2 ^ 3)
implemented _ v = true

-- The documented behaviour: `value` is what a register holds, `sent` says that no character waits in
-- the transmit queue, and `quiet` bounds how often a disabled port with an empty transmit queue still
-- reads as busy. A port with characters in that queue is busy whether it is enabled or not.
pub record DeviceLaws (D : Device) : Type 0 where
  pub value : Register → D.State → ℕ
  pub sent : D.State → Bool
  pub quiet : D.State → ℕ
  pub drain : ℕ
  pub read_held : (r : Register) (s : D.State) → Holds r → D.read r s ≡ value r s
  pub value_implemented : (r : Register) (s : D.State) → Holds r → implemented r (value r s) ≡ true
  pub after_read_held :
      (r r' : Register) (s : D.State) → Holds r → value r (D.after_read r' s) ≡ value r s
  pub write_self :
      (r : Register) (v : ℕ) (s : D.State)
      → Holds r
      → implemented r v ≡ true
      → value r (D.write r v s) ≡ v
  pub write_other :
      (r r' : Register) (v : ℕ) (s : D.State)
      → Holds r
      → r' ≢ r
      → value r (D.write r' v s) ≡ value r s
  pub sent_read : (r : Register) (s : D.State) → sent s ≡ true → sent (D.after_read r s) ≡ true
  pub sent_write :
      (r : Register) (v : ℕ) (s : D.State) → r ≢ dr → sent s ≡ true → sent (D.write r v s) ≡ true
  pub quiet_lt : (s : D.State) → sent s ≡ true → quiet s < drain
  pub busy_ends :
      (s : D.State)
      → sent s ≡ true
      → field (value cr s) 0 1 ≡ 0
      → is_set (D.read fr s) 3 ≡ true
      → quiet (D.after_read fr s) < quiet s

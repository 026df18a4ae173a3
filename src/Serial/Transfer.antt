-- ===== src/Serial/Transfer.antt =====
-- driver/serial/src/pl011.rs and driver/interface/rdif-serial/src/lib.rs: the bytes that a PL011
-- serial port sends and receives. None of it panics, so a call is a function of the state.
pub mod Reads
use sparreal_os.Prelude.{
  ℕ, zero, suc, ◌+◌, ◌-◌, Bool, true, false, Option, none, some, List, [], ◌∷◌, if◌then◌else◌,
}
use sparreal_os.Prelude.Fields.{field, is_set}
use sparreal_os.Serial.Registers.{Device, dr, fr}

pub data TransferError : Type 0 where
  overrun : ℕ → TransferError
  parity_error framing break_condition closed : TransferError

pub record TransBytesError : Type 0 where
  pub bytes_transferred : ℕ
  pub kind : TransferError

-- `Result<u8, TransferError>`
pub data Received : Type 0 where
  byte : ℕ → Received
  failed : TransferError → Received

-- `Result<usize, TransBytesError>`
pub data Transferred : Type 0 where
  bytes : ℕ → Transferred
  stopped : TransBytesError → Transferred

-- What a read of the data register says.
unfoldable pub decode : ℕ → Received
decode d =
    let data_bits = field d 0 8 in
    if is_set d 8
    then failed framing
    else if is_set d 9
    then failed parity_error
    else if is_set d 11
    then failed (overrun data_bits)
    else if is_set d 10
    then failed break_condition
    else byte data_bits

module _ (D : Device) where
  unfoldable pub write_byte : ℕ → D.State → Bool × D.State
  write_byte b s =
      let s' = D.after_read fr s in
      if is_set (D.read fr s) 5 then (false, s') else (true, D.write dr b s')

  unfoldable pub write_bytes : List ℕ → (written : ℕ) → D.State → ℕ × D.State
  write_bytes [] written s = (written, s)
  write_bytes (b ∷ bs) written s =
      let (sent, s') = write_byte b s in
      elim sent [ true ↦ write_bytes bs (written + 1) s' | false ↦ (written, s') ]

  unfoldable pub read_byte : D.State → Option Received × D.State
  read_byte s =
      let s' = D.after_read fr s in
      if is_set (D.read fr s) 4
      then (none, s')
      else (some (decode (D.read dr s')), D.after_read dr s')

  -- What `read_bytes` returns where no byte is there: an overrun that it met on the way comes last.
  unfoldable pub at_end : (count : ℕ) → (overrun_data : Option ℕ) → Transferred
  at_end count none = bytes count
  at_end count (some d) = stopped (record { bytes_transferred = count - 1; kind = overrun d })

  abbrev pub Outcome : Type 0
  Outcome = (List ℕ × Transferred) × D.State

  abbrev pub put_first : ℕ → Outcome → Outcome
  put_first v ((buffer, result), s) = ((v ∷ buffer, result), s)

  -- One round of the loop of `read_bytes`, with the answer of `read_byte`; `rest` are the rounds on
  -- the rest of the buffer.
  unfoldable pub read_round :
      ℕ
      → List ℕ
      → (count : ℕ) → (overrun_data : Option ℕ) → (rest : ℕ → Option ℕ → Outcome) → Option Received
      → D.State
      → Outcome
  read_round b bs count o rest none s = ((b ∷ bs, at_end count o), s)
  read_round b bs count o rest (some (byte v)) s = put_first v (rest (count + 1) o)
  read_round b bs count o rest (some (failed (overrun v))) s =
      put_first v (rest (count + 1) (some v))
  read_round b bs count o rest (some (failed e)) s =
      ((b ∷ bs, stopped (record { bytes_transferred = count; kind = e })), s)

  -- The buffer, the result and the state after the loop of `read_bytes`.
  unfoldable pub read_loop : List ℕ → (count : ℕ) → (overrun_data : Option ℕ) → D.State → Outcome
  read_loop [] count o s = (([], bytes count), s)
  read_loop (b ∷ bs) count o s =
      let (r, s') = read_byte s in read_round b bs count o (λ c o'. read_loop bs c o' s') r s'

  unfoldable pub read_bytes : List ℕ → D.State → Outcome
  read_bytes buffer s = read_loop buffer 0 none s

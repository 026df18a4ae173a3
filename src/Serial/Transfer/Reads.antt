-- ===== src/Serial/Transfer/Reads.antt =====
-- What `read_bytes` of a serial port returns, told from what the single reads find.
use native.Mathlib.Nat.{add-zero}
use sparreal_os.Prelude.{
  ℕ, zero, suc, ◌+◌, ◌-◌, ◌≡◌, refl, sym, ap, ◌∙◌, Option, none, some, List, [], ◌∷◌, length, arith,
}
use sparreal_os.Serial.Registers.{Device}
use sparreal_os.Serial.Transfer.{
  overrun, parity_error, framing, break_condition, closed, Received, byte, failed, Transferred,
  bytes, stopped, read_byte, at_end, Outcome, read_round, read_loop, read_bytes,
}

-- The bytes before the first read that finds none: one that is lost to an error is not counted, one
-- that comes with an overrun is.
abbrev pub stored : List (Option Received) → List ℕ
stored [] = []
stored (none ∷ rs) = []
stored (some (byte v) ∷ rs) = v ∷ stored rs
stored (some (failed (overrun v)) ∷ rs) = v ∷ stored rs
stored (some (failed e) ∷ rs) = []

-- The last of these bytes that came with an overrun.
abbrev pub last_overrun : Option ℕ → List (Option Received) → Option ℕ
last_overrun o [] = o
last_overrun o (none ∷ rs) = o
last_overrun o (some (byte v) ∷ rs) = last_overrun o rs
last_overrun o (some (failed (overrun v)) ∷ rs) = last_overrun (some v) rs
last_overrun o (some (failed e) ∷ rs) = o

-- The result for `n` bytes: the error that ended them; or where there were no more, the last overrun
-- with one byte fewer; or where the buffer was full, just the number.
abbrev pub verdict : ℕ → Option ℕ → List (Option Received) → Transferred
verdict n o [] = bytes n
verdict n none (none ∷ rs) = bytes n
verdict n (some d) (none ∷ rs) = stopped (record { bytes_transferred = n - 1; kind = overrun d })
verdict n o (some (byte v) ∷ rs) = verdict n o rs
verdict n o (some (failed (overrun v)) ∷ rs) = verdict n o rs
verdict n o (some (failed e) ∷ rs) = stopped (record { bytes_transferred = n; kind = e })

-- The buffer with its first bytes replaced.
abbrev pub overwritten : List ℕ → List ℕ → List ℕ
overwritten [] buffer = buffer
overwritten (v ∷ vs) [] = []
overwritten (v ∷ vs) (b ∷ buffer) = v ∷ overwritten vs buffer

-- How many reads come after one, where `n` would come after one that finds a byte.
abbrev pub further : Option Received → ℕ → ℕ
further none n = 0
further (some (byte v)) n = n
further (some (failed (overrun v))) n = n
further (some (failed e)) n = 0

-- The reads up to the one that ended the bytes.
abbrev pub used : List (Option Received) → ℕ
used [] = 0
used (r ∷ rs) = suc (further r (used rs))

module _ (D : Device) where
  -- What a number of reads, one after another, find, and the state after them.
  unfoldable pub reads : ℕ → D.State → List (Option Received)
  reads zero s = []
  reads (suc n) s = (read_byte D s).0 ∷ reads n (read_byte D s).1

  unfoldable pub after_reads : ℕ → D.State → D.State
  after_reads zero s = s
  after_reads (suc n) s = after_reads n (read_byte D s).1

  -- What `rs` are the reads of, and `s` the state after those that are used.
  abbrev pub told : List ℕ → (count : ℕ) → Option ℕ → List (Option Received) → D.State → Outcome D
  told buffer count o rs s = (
    (overwritten (stored rs) buffer, verdict (count + length (stored rs)) (last_overrun o rs) rs),
    s,
  )

  abbrev pub described : List ℕ → (count : ℕ) → Option ℕ → D.State → Outcome D
  described buffer count o s =
      let rs = reads (length buffer) s in told buffer count o rs (after_reads (used rs) s)

  at_end_lem :
      (count : ℕ) (o : Option ℕ) (rs : List (Option Received))
      → at_end D count o ≡ verdict count o (none ∷ rs)
  unfolding at_end
  at_end_lem count none rs = refl
  at_end_lem count (some d) rs = refl

  more : (count n : ℕ) → count + 1 + n ≡ count + suc n
  more count n = omega arith

  read_round_lem :
      (b : ℕ) (bs : List ℕ) (count : ℕ) (o : Option ℕ) (s : D.State) (r : Option Received)
      → read_round D b bs count o (λ c o'. described bs c o' s) r s ≡ (
          let rs = reads (length bs) s in
          told (b ∷ bs) count o (r ∷ rs) (after_reads (further r (used rs)) s))
  unfolding read_round after_reads
  read_round_lem b bs count o s none =
      ap {B = Outcome D} (λ x. ((b ∷ bs, x), s)) (at_end_lem count o (reads (length bs) s))
      ∙ rw (add-zero count) refl
  read_round_lem b bs count o s (some (byte v)) =
      rw (more count (length (stored (reads (length bs) s)))) refl
  read_round_lem b bs count o s (some (failed (overrun v))) =
      rw (more count (length (stored (reads (length bs) s)))) refl
  read_round_lem b bs count o s (some (failed parity_error)) = rw (add-zero count) refl
  read_round_lem b bs count o s (some (failed framing)) = rw (add-zero count) refl
  read_round_lem b bs count o s (some (failed break_condition)) = rw (add-zero count) refl
  read_round_lem b bs count o s (some (failed closed)) = rw (add-zero count) refl

  read_loop_lem :
      (buffer : List ℕ) (count : ℕ) (o : Option ℕ) (s : D.State)
      → read_loop D buffer count o s ≡ described buffer count o s
  unfolding read_loop reads after_reads
  read_loop_lem [] count o s = ap (λ n. (([], bytes n), s)) (sym (add-zero count))
  read_loop_lem (b ∷ bs) count o s =
      let s' = (read_byte D s).1 in
      ap (λ rest. read_round D b bs count o rest (read_byte D s).0 s')
        (λ i c o'. read_loop_lem bs c o' s' i)
      ∙ read_round_lem b bs count o s' (read_byte D s).0

  -- The buffer, the result and the state after `read_bytes` are what the reads up to the end of the
  -- buffer find, one after another. The bytes before the first read that finds none, or loses one to
  -- a parity, framing or break error, stand at the front of the buffer, and no read comes after
  -- that one. Such an error is returned with the number of these bytes. Where there is no byte left,
  -- the last overrun among them is returned with one byte fewer than the buffer has got, or else their
  -- number. Where the buffer is full, the number is returned without error, whatever was overrun.
  pub read_bytes_lem :
      (buffer : List ℕ) (s : D.State) → read_bytes D buffer s ≡ described buffer 0 none s
  unfolding read_bytes
  read_bytes_lem buffer s = read_loop_lem buffer 0 none s

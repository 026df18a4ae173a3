-- ===== src/Prelude/Fields.antt =====
-- The fields of a register: a field is a range of bits, given by its offset and its width.
use Prim.Native.Nat.{ℕ, ◌/◌, ◌%◌, ◌^◌, ◌<◌}
use mathlib.Core.Path.{◌≡◌}
use mathlib.Core.Bool.{Bool, true, false}
use native.Mathlib.Omega.{arith}
use sparreal_os.Prelude.Tests.{◌==◌}

-- `register.read(FIELD)`.
unfoldable pub field : ℕ → ℕ → ℕ → ℕ
field register offset width = register / 2 ^ offset % 2 ^ width

-- `register.is_set(FIELD)`, and the test of one bit by a mask.
unfoldable pub is_set : ℕ → ℕ → Bool
is_set register offset = register / 2 ^ offset % 2 == 1

abbrev pub bit : Bool → ℕ
bit true = 1
bit false = 0

pub bit-lt : (b : Bool) → bit b < 2
bit-lt true = omega arith
bit-lt false = omega arith

pub is_set-bit : (register k : ℕ) (b : Bool) → register / 2 ^ k % 2 ≡ bit b → is_set register k ≡ b
unfolding is_set
is_set-bit register k true h = rw h
is_set-bit register k false h = rw h

-- ===== src/Prelude/BitAt.antt =====
-- The single bits of a number: `&` and `|` work on each, and `1 << k` has one.
use native.Mathlib.Nat.{pow-suc}
use sparreal_os.Prelude.{
  ℕ, zero, suc, ◌+◌, ◌-◌, ◌*◌, ◌/◌, ◌%◌, ◌^◌, ◌≤◌, ◌<◌, ◌≡◌, refl, ap, ◌∙◌, Bool, false, not, ◌&&◌,
  ◌||◌, ltb, ◌==◌, min, bit_and, bit_or, arith,
}
use sparreal_os.Prelude.Bits.{bit_and_step, bit_or_step, bit_and-zero, pow-pos}

unfoldable pub bit_at : ℕ → ℕ → Bool
bit_at a zero = a % 2 == 1
bit_at a (suc j) = bit_at (a / 2) j

pub bit_at-bit_and : (j a b : ℕ) → bit_at (bit_and a b) j ≡ (bit_at a j && bit_at b j)
unfolding bit_at
bit_at-bit_and zero a b = ground (arith, bit_and_step a b)
bit_at-bit_and (suc j) a b =
    let half : bit_and a b / 2 ≡ bit_and (a / 2) (b / 2) = omega (arith, bit_and_step a b) in
    rw half (bit_at-bit_and j (a / 2) (b / 2))

pub bit_at-bit_or : (j a b : ℕ) → bit_at (bit_or a b) j ≡ (bit_at a j || bit_at b j)
unfolding bit_at
bit_at-bit_or zero a b = ground (arith, bit_or_step a b)
bit_at-bit_or (suc j) a b =
    let half : bit_or a b / 2 ≡ bit_or (a / 2) (b / 2) = omega (arith, bit_or_step a b) in
    rw half (bit_at-bit_or j (a / 2) (b / 2))

pub bit_at-zero : (j : ℕ) → bit_at 0 j ≡ false
unfolding bit_at
bit_at-zero zero = refl
bit_at-zero (suc j) = bit_at-zero j

pub bit_at-pow : (j k : ℕ) → bit_at (2 ^ k) j ≡ (j == k)
unfolding bit_at
bit_at-pow zero zero = refl
bit_at-pow zero (suc k) = ground (arith, pow-suc 2 k)
bit_at-pow (suc j) zero = bit_at-zero j ∙ ground arith
bit_at-pow (suc j) (suc k) =
    let half : 2 ^ suc k / 2 ≡ 2 ^ k = omega (arith, pow-suc 2 k) in
    rw half (bit_at-pow j k ∙ ground arith)

pub bit_at-ones : (j n : ℕ) → bit_at (2 ^ n - 1) j ≡ ltb j n
unfolding bit_at
bit_at-ones j zero = bit_at-zero j ∙ ground arith
bit_at-ones zero (suc n) = ground (arith, pow-suc 2 n, pow-pos n)
bit_at-ones (suc j) (suc n) =
    let half : (2 ^ suc n - 1) / 2 ≡ 2 ^ n - 1 = omega (arith, pow-suc 2 n, pow-pos n) in
    rw half (bit_at-ones j n ∙ ground arith)

pub pow_mono : (k n : ℕ) → k < n → 2 ^ k * 2 ≤ 2 ^ n
pow_mono k zero h = absurd (omega arith)
pow_mono zero (suc n) h = omega (arith, pow-suc 2 n, pow-pos n)
pow_mono (suc k) (suc n) h = omega (arith, pow-suc 2 n, pow-suc 2 k, pow_mono k n (omega arith))

-- The mask `!(1 << k)` of a word of `n` bits.
pub bit_at-hole : (j k n : ℕ) → k < n → bit_at (2 ^ n - 1 - 2 ^ k) j ≡ (ltb j n && not (j == k))
unfolding bit_at
bit_at-hole j k zero h = absurd (omega arith)
bit_at-hole zero zero (suc n) h = ground (arith, pow-suc 2 n, pow-pos n)
bit_at-hole (suc j) zero (suc n) h =
    let half : (2 ^ suc n - 1 - 2 ^ 0) / 2 ≡ 2 ^ n - 1 = omega (arith, pow-suc 2 n, pow-pos n) in
    rw half (bit_at-ones j n ∙ ground arith)
bit_at-hole zero (suc k) (suc n) h =
    ground (arith, pow-suc 2 n, pow-suc 2 k, pow-pos n, pow_mono k n (omega arith))
bit_at-hole (suc j) (suc k) (suc n) h =
    let half : (2 ^ suc n - 1 - 2 ^ suc k) / 2 ≡ 2 ^ n - 1 - 2 ^ k =
      omega (arith, pow-suc 2 n, pow-suc 2 k, pow-pos n) in
    rw half (bit_at-hole j k n (omega arith) ∙ ground arith)

-- `|` and `&` of numbers of `n` bits.
pub bit_or-lt : (n a b : ℕ) → a < 2 ^ n → b < 2 ^ n → bit_or a b < 2 ^ n
bit_or-lt zero a b ha hb =
    let none' : a ≡ 0 = omega arith in
    let none'' : b ≡ 0 = omega arith in rw (none', none'') (omega arith)
bit_or-lt (suc n) a b ha hb = omega (
  arith,
  pow-suc 2 n,
  bit_or_step a b,
  bit_or-lt n (a / 2) (b / 2) (omega (arith, pow-suc 2 n)) (omega (arith, pow-suc 2 n)),
)

pub bit_and-lt : (n a b : ℕ) → b < 2 ^ n → bit_and a b < 2 ^ n
bit_and-lt zero a b hb = let none' : b ≡ 0 = omega arith in rw (none', bit_and-zero a) (omega arith)
bit_and-lt (suc n) a b hb = omega (
  arith,
  pow-suc 2 n,
  bit_and_step a b,
  bit_and-lt n (a / 2) (b / 2) (omega (arith, pow-suc 2 n)),
)

-- The test `(a & (1 << k)) != 0`.
pub bit_and-pow : (k a : ℕ) → not (bit_and a (2 ^ k) == 0) ≡ bit_at a k
unfolding bit_at
bit_and-pow zero a = ground (arith, bit_and_step a 1, bit_and-zero (a / 2))
bit_and-pow (suc k) a =
    let half : 2 ^ suc k / 2 ≡ 2 ^ k = omega (arith, pow-suc 2 k) in
    let even : 2 ^ suc k % 2 ≡ 0 = omega (arith, pow-suc 2 k) in
    let step : bit_and a (2 ^ suc k) ≡ bit_and (a / 2) (2 ^ k) * 2 + min (a % 2) 0 =
      bit_and_step a (2 ^ suc k) ∙ rw (half, even) refl in
    let same : (bit_and a (2 ^ suc k) == 0) ≡ (bit_and (a / 2) (2 ^ k) == 0) = ground arith in
    ap not same ∙ bit_and-pow k (a / 2)

-- ===== src/Prelude/Bits.antt =====
-- `&` and `|` digit by digit: a mask of low ones keeps a remainder, and `|` on disjoint digits is a
-- sum.
use Prim.Native.Nat.{digits, bitwise, bit_and-bitwise, bit_or-bitwise, min, max, bit_and, bit_or}
use native.Mathlib.Nat.{
  pow-suc, mul_assoc, div-add-mod', mod-lt, mod-eq_of_lt, mul-add-mod_self_right,
}
use sparreal_os.Prelude.{
  ℕ, zero, suc, ◌+◌, ◌-◌, ◌*◌, ◌/◌, ◌%◌, ◌^◌, ◌≤◌, ◌<◌, ◌≡◌, refl, sym, ap, ◌∙◌, arith,
}

-- An operation on digits that stops with `rest` when its left argument has no digit left.
module _ (rest : ℕ → ℕ) (op : ℕ → ℕ → ℕ) where
  no_digit : (n b : ℕ) → digits rest op n 0 b ≡ rest b
  no_digit zero b = refl
  no_digit (suc n) b = refl

  any_depth : (a b n m : ℕ) → a ≤ n → a ≤ m → digits rest op n a b ≡ digits rest op m a b
  any_depth zero b n m deep deep' = no_digit n b ∙ sym (no_digit m b)
  any_depth (suc a) b zero m deep deep' = absurd (omega arith)
  any_depth (suc a) b (suc n) zero deep deep' = absurd (omega arith)
  any_depth (suc a) b (suc n) (suc m) deep deep' =
      ap (λ high. high * 2 + op (suc a % 2) (b % 2))
        (any_depth (suc a / 2) (b / 2) n m (omega arith) (omega arith))

  lowest_digit :
      ((b : ℕ) → rest b ≡ rest (b / 2) * 2 + op 0 (b % 2))
      → (a b : ℕ) → bitwise rest op a b ≡ bitwise rest op (a / 2) (b / 2) * 2 + op (a % 2) (b % 2)
  lowest_digit idle zero b = idle b
  lowest_digit idle (suc a) b =
      ap (λ high. high * 2 + op (suc a % 2) (b % 2))
        (any_depth (suc a / 2) (b / 2) a (suc a / 2) (omega arith) (omega arith))

pub bit_and_step : (a b : ℕ) → bit_and a b ≡ bit_and (a / 2) (b / 2) * 2 + min (a % 2) (b % 2)
bit_and_step a b =
    bit_and-bitwise a b
    ∙ lowest_digit (λ b. 0) min (λ b. omega arith) a b
    ∙ ap (λ high. high * 2 + min (a % 2) (b % 2)) (sym (bit_and-bitwise (a / 2) (b / 2)))

pub bit_or_step : (a b : ℕ) → bit_or a b ≡ bit_or (a / 2) (b / 2) * 2 + max (a % 2) (b % 2)
bit_or_step a b =
    bit_or-bitwise a b
    ∙ lowest_digit (λ b. b) max (λ b. omega arith) a b
    ∙ ap (λ high. high * 2 + max (a % 2) (b % 2)) (sym (bit_or-bitwise (a / 2) (b / 2)))

-- Both operations with 0 on the right, for numbers up to a bound.
with_zero : (bound a : ℕ) → a ≤ bound → (bit_and a 0 ≡ 0) × (bit_or a 0 ≡ a)
with_zero bound zero h = (refl, refl)
with_zero zero (suc a) h = absurd (omega arith)
with_zero (suc bound) (suc a) h =
    let (none', all) = with_zero bound (suc a / 2) (omega arith) in
    (omega (arith, none', bit_and_step (suc a) 0), omega (arith, all, bit_or_step (suc a) 0))

pub bit_and-zero : (a : ℕ) → bit_and a 0 ≡ 0
bit_and-zero a = (with_zero a a (omega arith)).0

pub bit_or-zero : (a : ℕ) → bit_or a 0 ≡ a
bit_or-zero a = (with_zero a a (omega arith)).1

zero-bit_or : (b : ℕ) → bit_or 0 b ≡ b
zero-bit_or b = bit_or-bitwise 0 b

pub pow-pos : (n : ℕ) → 0 < 2 ^ n
pow-pos zero = omega arith
pow-pos (suc n) = omega (arith, pow-suc 2 n, pow-pos n)

mod_digit : (a p : ℕ) → 0 < p → a % (p * 2) ≡ (a / 2) % p * 2 + a % 2
mod_digit a p h =
    let q = a / 2 / p in
    let r = a / 2 % p in
    let e : a ≡ q * (p * 2) + (r * 2 + a % 2) = omega (arith, div-add-mod' (a / 2) p) in
    let small : r * 2 + a % 2 < p * 2 = omega (arith, mod-lt (a / 2) h) in
    ap (λ t. t % (p * 2)) e ∙ mul-add-mod_self_right q (p * 2) _ ∙ mod-eq_of_lt small

-- A mask of `n` ones keeps the remainder by `2 ^ n`.
pub bit_and-mask : (n a : ℕ) → bit_and a (2 ^ n - 1) ≡ a % 2 ^ n
bit_and-mask zero a = omega (arith, bit_and-zero a)
bit_and-mask (suc n) a =
    let ones : (2 ^ suc n - 1) / 2 ≡ 2 ^ n - 1 = omega (arith, pow-suc 2 n, pow-pos n) in
    let odd : (2 ^ suc n - 1) % 2 ≡ 1 = omega (arith, pow-suc 2 n, pow-pos n) in
    bit_and_step a (2 ^ suc n - 1)
    ∙ rw (ones, odd, bit_and-mask n (a / 2), pow-suc 2 n)
        (omega (arith, mod_digit a (2 ^ n) (pow-pos n)))

-- `a | b << n` is a sum where `a` has no more than `n` bits.
pub bit_or-shifted : (n a b : ℕ) → a < 2 ^ n → bit_or a (b * 2 ^ n) ≡ a + b * 2 ^ n
bit_or-shifted zero a b h =
    let none' : a ≡ 0 = omega arith in rw none' (omega (arith, zero-bit_or (b * 2 ^ 0)))
bit_or-shifted (suc n) a b h =
    let twice : b * 2 ^ suc n ≡ b * 2 ^ n * 2 =
      rw (pow-suc 2 n) (omega (arith, mul_assoc b (2 ^ n) 2)) in
    let half : b * 2 ^ suc n / 2 ≡ b * 2 ^ n = omega arith in
    let even : b * 2 ^ suc n % 2 ≡ 0 = omega arith in
    let ih = bit_or-shifted n (a / 2) b (omega (arith, pow-suc 2 n)) in
    bit_or_step a (b * 2 ^ suc n) ∙ rw (half, even, ih) (omega arith)

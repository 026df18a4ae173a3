-- ===== src/Block/IdList.antt =====
-- driver/interface/rdif-block/src/lib.rs: `IdList`, the queues of an event as the bits of a `u64`.
use native.Mathlib.Nat.{pow-suc, div-div-eq-div-mul, mul_assoc, mul_comm}
use sparreal_os.Prelude.{
  ℕ, zero, suc, ◌+◌, ◌*◌, ◌/◌, ◌%◌, ◌^◌, ◌<◌, ◌≡◌, refl, ap, sym, ◌∙◌, min, bit_and, bit_or, Bool,
  true, false, not, ltb, lt→ltb, ◌||◌, ◌==◌, if◌then◌else◌, arith, Bool-cases, inl, inr, ==_false,
}
use sparreal_os.Prelude.Outcome.{Run, ok, panic}
use sparreal_os.Prelude.Bits.{bit_and_step, bit_and-mask, bit_or_step, bit_or-zero, pow-pos}

abbrev pub none : ℕ
none = 0

-- `1 << id` in a `u64` panics for an id of 64 or more, as in a build with overflow checks.
unfoldable pub contains : (id ids : ℕ) → Run ⊥ ℕ Bool
contains id ids = if ltb id 64 then ok (not (bit_and ids (2 ^ id) == 0)) ids else panic

unfoldable pub insert : (id ids : ℕ) → Run ⊥ ℕ (Unit {0})
insert id ids = if ltb id 64 then ok tt (bit_or ids (2 ^ id)) else panic

bit_and-bit : (j n : ℕ) → bit_and n (2 ^ j) ≡ n / 2 ^ j % 2 * 2 ^ j
bit_and-bit zero n = omega (arith, bit_and-mask 1 n)
bit_and-bit (suc j) n =
    let p = 2 ^ j in
    let twice : 2 ^ suc j ≡ 2 * p = omega (arith, pow-suc 2 j) in
    let half : 2 ^ suc j / 2 ≡ p = omega arith in
    let even : 2 ^ suc j % 2 ≡ 0 = omega arith in
    let down : n / 2 / p ≡ n / 2 ^ suc j = div-div-eq-div-mul n 2 p ∙ ap (λ t. n / t) (sym twice) in
    bit_and_step n (2 ^ suc j)
    ∙ rw (half, even, bit_and-bit j (n / 2), down)
        (digit (n / 2 ^ suc j % 2) p (2 ^ suc j) (n % 2) twice)
  where
    digit : (b p q m : ℕ) → q ≡ 2 * p → b * p * 2 + min m 0 ≡ b * q
    digit b p q m e = rw e (omega (arith, mul_assoc b p 2, mul_comm p 2))

halve : (j m : ℕ) → m / 2 ^ suc j ≡ m / 2 / 2 ^ j
halve j m = sym (div-div-eq-div-mul m 2 (2 ^ j) ∙ ap (λ t. m / t) (omega (arith, pow-suc 2 j)))

bit_or-bit : (i j n : ℕ) → bit_or n (2 ^ i) / 2 ^ j % 2 ≡ (if i == j then 1 else n / 2 ^ j % 2)
bit_or-bit zero zero n = omega (arith, bit_or_step n 1)
bit_or-bit (suc i) zero n =
    let even : 2 ^ suc i % 2 ≡ 0 = omega (arith, pow-suc 2 i) in
    let other : (suc i == 0) ≡ false = ground arith in
    rw other (omega (arith, bit_or_step n (2 ^ suc i)))
bit_or-bit zero (suc j) n =
    let other : (0 == suc j) ≡ false = ground arith in
    let half : bit_or n 1 / 2 ≡ n / 2 = omega (arith, bit_or_step n 1, bit_or-zero (n / 2)) in
    rw (other, halve j (bit_or n 1), halve j n, half)
bit_or-bit (suc i) (suc j) n =
    let p : 2 ^ suc i / 2 ≡ 2 ^ i = omega (arith, pow-suc 2 i) in
    let half : bit_or n (2 ^ suc i) / 2 ≡ bit_or (n / 2) (2 ^ i) =
      omega (arith, bit_or_step n (2 ^ suc i), pow-suc 2 i, ap (bit_or (n / 2)) p) in
    let same_test : (suc i == suc j) ≡ (i == j) = ground arith in
    rw (same_test, halve j (bit_or n (2 ^ suc i)), halve j n, half) (bit_or-bit i j (n / 2))

has-bit_or :
    (ids i j : ℕ)
    → not (bit_and (bit_or ids (2 ^ i)) (2 ^ j) == 0) ≡ (i == j || not (bit_and ids (2 ^ j) == 0))
has-bit_or ids i j =
    rw (bit_and-bit j ids, bit_and-bit j (bit_or ids (2 ^ i)), bit_or-bit i j ids)
      (elim (Bool-cases (i == j)) [
        | inl e ↦
            let set' : (1 * 2 ^ j == 0) ≡ false =
              ==_false _ _ (λ h. absurd (omega (arith, pow-pos j))) in
            rw (e, set')
        | inr e ↦ rw e
      ])

pub insert_lem : (id ids : ℕ) → id < 64 → insert id ids ≡ ok tt (bit_or ids (2 ^ id))
unfolding insert
insert_lem id ids h = rw (lt→ltb id 64 h) refl

-- A queue of an id below 64 is put in an event without panic, whatever the event holds. The event
-- then holds this queue, and of the others below 64 those that it held before.
pub contains-insert :
    (ids i j : ℕ)
    → i < 64
    → j < 64
    → (ids' : ℕ) × (b : Bool) × (insert i ids ≡ ok tt ids')
      × (contains j ids ≡ ok b ids)
      × (contains j ids' ≡ ok (i == j || b) ids')
unfolding contains
contains-insert ids i j hi hj =
    let small = lt→ltb j 64 hj in
    (
      bit_or ids (2 ^ i),
      not (bit_and ids (2 ^ j) == 0),
      insert_lem i ids hi,
      rw small refl,
      rw small (ap (λ b. ok b (bit_or ids (2 ^ i))) (has-bit_or ids i j)),
    )

-- What an event holds of the queues below 64.
pub contains-set :
    (ids i j : ℕ)
    → j < 64
    → (i == j) ≡ true
    → contains j (bit_or ids (2 ^ i)) ≡ ok true (bit_or ids (2 ^ i))
unfolding contains
contains-set ids i j hj same = rw (lt→ltb j 64 hj, has-bit_or ids i j, same) refl

pub contains-kept :
    (ids i j : ℕ)
    → contains j ids ≡ ok true ids
    → contains j (bit_or ids (2 ^ i)) ≡ ok true (bit_or ids (2 ^ i))
unfolding contains
contains-kept ids i j h = elim (Bool-cases (ltb j 64)) [
  | inl e ↦
      let was : not (bit_and ids (2 ^ j) == 0) ≡ true = ground arith in
      rw (e, has-bit_or ids i j, was) (ap (λ b. ok b (bit_or ids (2 ^ i))) (ground arith))
  | inr e ↦ absurd (ground arith)
]

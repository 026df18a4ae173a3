-- ===== src/Paging/Geometry/Shifts.antt =====
-- The sizes of the levels as powers of two.
use native.Mathlib.Nat.{
  pow-suc, pow-zero, mul-one, mul_assoc, mul_comm, mul-mod_left, add-mod, zero-mod, div-add-mod',
  mul-add-mod_self_right, pow-le-pow_right, mod-eq_of_lt,
}
use sparreal_os.Prelude.{
  ℕ, zero, suc, ◌+◌, ◌-◌, ◌*◌, ◌%◌, ◌^◌, ◌≤◌, ◌<◌, ◌≡◌, refl, ap, sym, ◌∙◌, inl, List, [], ◌∷◌,
  arith, ◌==◌, Bool-cases, ltb, ltb→lt, ltb-false→le, ◌/◌, inr, length, get_or, drop,
}
use sparreal_os.Paging.Meta.{TableMeta, page_size, table_levels}
use sparreal_os.Paging.Geometry.{
  sum, low_bits, level_size, level_shift, level_index_bits, index_bits, valid_bits, GeometryLaws,
}

pub pow-add : (a b : ℕ) → 2 ^ (a + b) ≡ 2 ^ a * 2 ^ b
pow-add a zero = rw (pow-zero, mul-one) (ap (λ t. 2 ^ t) (omega arith))
pow-add a (suc b) =
    let e : a + suc b ≡ suc (a + b) = omega arith in
    ap (λ t. 2 ^ t) e
    ∙ rw (pow-suc 2 (a + b), pow-suc 2 b, pow-add a b) (mul_assoc (2 ^ a) (2 ^ b) 2)

pub pow-le : (a b : ℕ) → a ≤ b → 2 ^ a ≤ 2 ^ b
pow-le a b h = pow-le-pow_right (omega arith) h

pub pow-lt : (a b : ℕ) → a < b → 2 ^ a < 2 ^ b
pow-lt a b h = omega (arith, pow-le (suc a) b h, pow-suc 2 a, pow-le 0 a (omega arith))

pub add-aligned : (a b p : ℕ) → a % p ≡ 0 → b % p ≡ 0 → (a + b) % p ≡ 0
add-aligned a b p ha hb = add-mod a b p ∙ rw (ha, hb) (zero-mod p)

pub sub-aligned : (a b p : ℕ) → a % p ≡ 0 → b % p ≡ 0 → b ≤ a → (a - b) % p ≡ 0
sub-aligned a b p ha hb le =
    let split : a ≡ b / p * p + (a - b) = omega (arith, div-add-mod' b p) in
    sym (ap (λ t. t % p) split ∙ mul-add-mod_self_right (b / p) p (a - b)) ∙ ha

-- Between two multiples of `p` there is room for `p`.
pub aligned_room : (v e p : ℕ) → v % p ≡ 0 → e % p ≡ 0 → v < e → v + p ≤ e
aligned_room v e p hv he lt = elim (Bool-cases (ltb e (v + p))) [
  | inr room ↦ ltb-false→le _ _ room
  | inl tight ↦
      let inside : e - v < p = omega (arith, ltb→lt _ _ tight) in
      let split : e ≡ v / p * p + (e - v) = omega (arith, div-add-mod' v p) in
      let rest : e % p ≡ e - v =
        ap (λ t. t % p) split ∙ mul-add-mod_self_right (v / p) p (e - v) ∙ mod-eq_of_lt inside in
      absurd (omega arith)
]

sum-drop :
    (n : ℕ) (xs : List ℕ) → n < length xs → sum (drop n xs) ≡ get_or xs n 0 + sum (drop (suc n) xs)
unfolding sum
sum-drop n [] h = absurd (omega arith)
sum-drop zero (x ∷ xs) h = refl
sum-drop (suc n) (x ∷ xs) h = sum-drop n xs (omega arith)

sum-drop-le : (n : ℕ) (xs : List ℕ) → sum (drop n xs) ≤ sum xs
unfolding sum
sum-drop-le zero xs = omega arith
sum-drop-le (suc n) [] = omega arith
sum-drop-le (suc n) (x ∷ xs) = omega (arith, sum-drop-le n xs)

sum-drop_all : (n : ℕ) (xs : List ℕ) → length xs ≤ n → sum (drop n xs) ≡ 0
unfolding sum
sum-drop_all zero [] h = refl
sum-drop_all zero (x ∷ xs) h = absurd (omega arith)
sum-drop_all (suc n) [] h = refl
sum-drop_all (suc n) (x ∷ xs) h = sum-drop_all n xs (omega arith)

module _ (T : TableMeta) where
  -- The shift of a level, also of the first.
  abbrev pub shift : ℕ → ℕ
  shift l = T.page_shift + low_bits T l

  pub low_bits_one : low_bits T 1 ≡ 0
  unfolding low_bits sum
  low_bits_one = sum-drop_all (table_levels T - 1 + 1) T.level_bits (omega arith)

  pub low_bits-suc :
      (l : ℕ)
      → 0 < l
      → l < table_levels T
      → low_bits T (suc l) ≡ level_index_bits T l + low_bits T l
  unfolding low_bits
  low_bits-suc l pos h =
      let here : table_levels T - suc l + 1 ≡ table_levels T - l = omega arith in
      let next : table_levels T - l + 1 ≡ suc (table_levels T - l) = omega arith in
      rw (here, next) (sum-drop (table_levels T - l) T.level_bits (omega arith))

  pub low_bits-le :
      (l : ℕ) → 0 < l → l ≤ table_levels T → low_bits T l + level_index_bits T l ≤ index_bits T
  unfolding low_bits index_bits
  low_bits-le l pos h =
      let next : table_levels T - l + 1 ≡ suc (table_levels T - l) = omega arith in
      rw next (
        omega (
          arith,
          sum-drop (table_levels T - l) T.level_bits (omega arith),
          sum-drop-le (table_levels T - l) T.level_bits,
        ))

  pub level_shift_lem : (l : ℕ) → level_shift T l ≡ shift l
  unfolding level_shift
  level_shift_lem l = elim (Bool-cases (l == 1)) [
    | inl e ↦ let one : l ≡ 1 = ground arith in rw (one, low_bits_one) (omega arith)
    | inr e ↦ rw e
  ]

  shift-lt : GeometryLaws T → (l : ℕ) → 0 < l → l ≤ table_levels T → shift l < 64
  unfolding valid_bits
  shift-lt g l pos h = omega (arith, low_bits-le l pos h, g.index_pos l pos h, g.width)

  pub level_size_lem :
      GeometryLaws T → (l : ℕ) → 0 < l → l ≤ table_levels T → level_size T l ≡ 2 ^ shift l
  unfolding level_size
  level_size_lem g l pos h = elim (Bool-cases (l == 1)) [
    | inl e ↦
        let one : l ≡ 1 = ground arith in rw (one, low_bits_one) (ap (λ t. 2 ^ t) (omega arith))
    | inr e ↦
        rw (e, ← pow-add T.page_shift (low_bits T l))
          (mod-eq_of_lt (pow-lt (shift l) 64 (shift-lt g l pos h)))
  ]

  pub page_size_lem : page_size T ≡ 2 ^ shift 1
  page_size_lem = rw low_bits_one (ap (λ t. 2 ^ t) (omega arith))

  -- Sizes of levels are multiples of the page size.
  pub shift-aligned : (k l : ℕ) → k * 2 ^ shift l % page_size T ≡ 0
  shift-aligned k l =
      let split : k * 2 ^ shift l ≡ k * 2 ^ low_bits T l * page_size T =
        ap (λ t. k * t) (pow-add T.page_shift (low_bits T l) ∙ mul_comm _ _)
        ∙ sym (mul_assoc k (2 ^ low_bits T l) (page_size T)) in
      ap (λ t. t % page_size T) split ∙ mul-mod_left (k * 2 ^ low_bits T l) (page_size T)

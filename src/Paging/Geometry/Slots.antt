-- ===== src/Paging/Geometry/Slots.antt =====
-- Addresses by slot and region: the slot of an address at a level is the number of the block that
-- one entry covers, its region the number of the block that one table covers.
use native.Mathlib.Nat.{
  div-div-eq-div-mul, div-add-mod', mod-lt, div-eq_of_lt-le, add-mul, mod-eq_of_lt,
  mul-add-mod_self_right,
}
use sparreal_os.Prelude.{
  ℕ, suc, ◌+◌, ◌-◌, ◌*◌, ◌/◌, ◌%◌, ◌^◌, ◌≤◌, ◌<◌, ◌≡◌, ap, sym, ◌∙◌, some, arith,
}
use sparreal_os.Prelude.Bits.{bit_and-mask, pow-pos}
use sparreal_os.Paging.Meta.{TableMeta, table_levels}
use sparreal_os.Paging.Geometry.{virt_to_index, level_index_bits}
use sparreal_os.Paging.Geometry.Shifts.{shift, pow-add, low_bits-suc, level_shift_lem}

module _ (T : TableMeta) where
  unfoldable pub slot : ℕ → ℕ → ℕ
  slot l v = v / 2 ^ shift T l

  unfoldable pub index : ℕ → ℕ → ℕ
  index l v = slot l v % 2 ^ level_index_bits T l

  unfoldable pub region : ℕ → ℕ → ℕ
  region l v = slot l v / 2 ^ level_index_bits T l

  -- The slot that an index stands for in a table of a given region.
  abbrev pub slot_at : ℕ → ℕ → ℕ → ℕ
  slot_at l r i = r * 2 ^ level_index_bits T l + i

  pub virt_to_index_lem :
      (v l : ℕ) → 0 < l → l ≤ table_levels T → virt_to_index T v l ≡ some (index l v)
  unfolding virt_to_index index slot
  virt_to_index_lem v l pos h =
      rw (level_shift_lem T l, bit_and-mask (level_index_bits T l)) (ground arith)

  pub index-lt : (l v : ℕ) → index l v < 2 ^ level_index_bits T l
  unfolding index
  index-lt l v = mod-lt (slot l v) (pow-pos (level_index_bits T l))

  pub slot-eq-slot_at : (l v : ℕ) → slot l v ≡ slot_at l (region l v) (index l v)
  unfolding region index
  slot-eq-slot_at l v = sym (div-add-mod' (slot l v) (2 ^ level_index_bits T l))

  -- A table of the level below lies in one slot.
  pub region-eq-slot : (l v : ℕ) → 0 < l → l < table_levels T → region l v ≡ slot (suc l) v
  unfolding region slot
  region-eq-slot l v pos h =
      div-div-eq-div-mul v (2 ^ shift T l) (2 ^ level_index_bits T l)
      ∙ ap (λ t. v / t)
          (sym (pow-add (shift T l) (level_index_bits T l))
            ∙ ap (λ t. 2 ^ t) (omega (arith, low_bits-suc T l pos h)))

  -- The addresses of a slot that starts at `v`.
  pub block_of_slot :
      (l v w : ℕ) → v % 2 ^ shift T l ≡ 0 → slot l w ≡ slot l v → (v ≤ w) × (w < v + 2 ^ shift T l)
  unfolding slot
  block_of_slot l v w aligned same =
      let p = 2 ^ shift T l in
      let mult : w / p * p ≡ v / p * p = ap (λ t. t * p) same in
      let small : w % p < p = mod-lt w (pow-pos (shift T l)) in
      (
        omega (arith, div-add-mod' v p, div-add-mod' w p),
        omega (arith, div-add-mod' v p, div-add-mod' w p),
      )

  -- The addresses from `v` up to the end of its slot.
  pub slot_until :
      (l v w : ℕ) → v ≤ w → w < (v / 2 ^ shift T l + 1) * 2 ^ shift T l → slot l w ≡ slot l v
  unfolding slot
  slot_until l v w lo hi =
      let p = 2 ^ shift T l in div-eq_of_lt-le p (omega (arith, div-add-mod' v p)) hi

  pub slot_of_block :
      (l v w : ℕ)
      → v % 2 ^ shift T l ≡ 0
      → v ≤ w
      → w < v + 2 ^ shift T l
      → (slot l w ≡ slot l v) × (w % 2 ^ shift T l ≡ w - v)
  slot_of_block l v w aligned lo hi =
      let p = 2 ^ shift T l in
      let e : w ≡ v / p * p + (w - v) = omega (arith, div-add-mod' v p) in
      (
        slot_until l v w lo (omega (arith, div-add-mod' v p, add-mul (v / p) 1 p)),
        ap (λ t. t % p) e ∙ mul-add-mod_self_right (v / p) p (w - v) ∙ mod-eq_of_lt (omega arith),
      )

  pub index_of_slot : (l v w : ℕ) → slot l w ≡ slot l v → index l w ≡ index l v
  unfolding index
  index_of_slot l v w same = ap (λ t. t % 2 ^ level_index_bits T l) same

  pub region_of_slot : (l v w : ℕ) → slot l w ≡ slot l v → region l w ≡ region l v
  unfolding region
  region_of_slot l v w same = ap (λ t. t / 2 ^ level_index_bits T l) same

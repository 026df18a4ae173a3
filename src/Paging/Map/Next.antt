-- ===== src/Paging/Map/Next.antt =====
-- The end of the slot of an address, with the saturating arithmetic of the source.
use native.Mathlib.Nat.{div-le_self, div-add-mod', mod-lt, add-mul}
use sparreal_os.Prelude.{
  ℕ, ◌+◌, ◌*◌, ◌/◌, ◌%◌, ◌^◌, ◌≤◌, ◌<◌, ◌≡◌, min, arith, ltb, lt→ltb, inl, inr, Bool-cases, ltb→lt,
  ltb-false→le,
}
use sparreal_os.Prelude.Bits.{pow-pos}
use sparreal_os.Paging.Config.{usize_mod, saturating_add, saturating_mul}
use sparreal_os.Paging.Geometry.{GeometryLaws}
use sparreal_os.Paging.Geometry.Shifts.{shift, level_size_lem, shift-aligned}
use sparreal_os.Paging.Geometry.Slots.{slot, slot_until}
use sparreal_os.Paging.Map.{MapOptions, next_level_vaddr}
use sparreal_os.Paging.Meta.{TableMeta, FrameAllocator, table_levels, page_size}

saturating_add_lem : (a b : ℕ) → a + b < usize_mod → saturating_add a b ≡ a + b
unfolding saturating_add
saturating_add_lem a b h = rw (lt→ltb _ _ h)

min-saturating_mul : (a b e : ℕ) → e < usize_mod → min (saturating_mul a b) e ≡ min (a * b) e
unfolding saturating_mul
min-saturating_mul a b e h = elim (Bool-cases (ltb (a * b) usize_mod)) [
  | inl small ↦ rw small
  | inr large ↦ let big : usize_mod ≤ a * b = ltb-false→le _ _ large in rw large (omega arith)
]

module _ (T : TableMeta) (A : FrameAllocator) (o : MapOptions) (g : GeometryLaws T) (l v e : ℕ)
    (pos : 0 < l) (h : l ≤ table_levels T) (lt : v < e) (small : e < usize_mod) where
  abbrev slot_end : ℕ
  slot_end = (v / 2 ^ shift T l + 1) * 2 ^ shift T l

  next_lem : next_level_vaddr T A o l v e ≡ min slot_end e
  unfolding next_level_vaddr
  next_lem =
      rw
        (
          level_size_lem T g l pos h,
          saturating_add_lem (v / 2 ^ shift T l) 1 (omega (arith, div-le_self v (2 ^ shift T l))),
        )
        (min-saturating_mul (v / 2 ^ shift T l + 1) (2 ^ shift T l) e small)

  slot_end-lt : v < slot_end
  slot_end-lt =
      let p = 2 ^ shift T l in
      let step : slot_end ≡ v / p * p + 1 * p = add-mul (v / p) 1 p in
      let low : v % p < p = mod-lt v (pow-pos (shift T l)) in omega (arith, div-add-mod' v p)

  pub next-gt : v < next_level_vaddr T A o l v e
  next-gt = omega (arith, next_lem, slot_end-lt)

  pub next-le : next_level_vaddr T A o l v e ≤ e
  next-le = omega (arith, next_lem)

  -- The range up to it stays in the slot.
  pub next-slot : (w : ℕ) → v ≤ w → w < next_level_vaddr T A o l v e → slot T l w ≡ slot T l v
  next-slot w lo hi = slot_until T l v w lo (omega (arith, next_lem))

  slot_end-aligned : slot_end % page_size T ≡ 0
  slot_end-aligned = shift-aligned T (v / 2 ^ shift T l + 1) l

  pub next-aligned : e % page_size T ≡ 0 → next_level_vaddr T A o l v e % page_size T ≡ 0
  next-aligned aligned = elim (Bool-cases (ltb slot_end e)) [
    | inl inside ↦
        let first : next_level_vaddr T A o l v e ≡ slot_end =
          omega (arith, next_lem, ltb→lt slot_end e inside) in
        rw first slot_end-aligned
    | inr over ↦
        let last : next_level_vaddr T A o l v e ≡ e =
          omega (arith, next_lem, ltb-false→le slot_end e over) in
        rw last aligned
  ]

-- ===== src/Paging/Unmap/Slots.antt =====
-- Where the loop of `unmap_range_recursive` may start so that it skips nothing: the walk of the
-- first address stops at an entry whose slot begins at that address.
use native.Mathlib.Nat.{div-add-mod', mod-lt, add-mul, mul_assoc, mul-mod_left}
use sparreal_os.Prelude.{
  ℕ, zero, suc, ◌+◌, ◌*◌, ◌/◌, ◌%◌, ◌^◌, ◌≤◌, ◌<◌, ◌≡◌, sym, ap, ◌∙◌, inl, inr, arith,
}
use sparreal_os.Prelude.Bits.{pow-pos}
use sparreal_os.Paging.Config.{PhysAddr}
use sparreal_os.Paging.Geometry.{level_index_bits}
use sparreal_os.Paging.Geometry.Shifts.{shift, low_bits-suc, pow-add}
use sparreal_os.Paging.Geometry.Slots.{index}
use sparreal_os.Paging.Meta.{TableMeta, FrameAllocator, Machine, table_levels}
use sparreal_os.Paging.Translate.Lookup.{Kind-cases, vacant, mapping, pointer, kind}

module _ (T : TableMeta) where
  pub shift-suc-le : (l : ℕ) → 0 < l → l < table_levels T → shift T l ≤ shift T (suc l)
  shift-suc-le l pos h = omega (arith, low_bits-suc T l pos h)

  pub aligned_suc :
      (l v : ℕ) → 0 < l → l < table_levels T → v % 2 ^ shift T (suc l) ≡ 0 → v % 2 ^ shift T l ≡ 0
  aligned_suc l v pos h aligned =
      let p = 2 ^ shift T l in
      let b = 2 ^ level_index_bits T l in
      let big = 2 ^ shift T (suc l) in
      let size : big ≡ b * p =
        ap (λ t. 2 ^ t) (omega (arith, low_bits-suc T l pos h))
        ∙ pow-add (level_index_bits T l) (shift T l) in
      let whole : v ≡ v / big * big = omega (arith, div-add-mod' v big) in
      let split : v / big * big ≡ v / big * b * p =
        ap (λ t. v / big * t) size ∙ sym (mul_assoc (v / big) b p) in
      ap (λ t. t % p) (whole ∙ split) ∙ mul-mod_left (v / big * b) p

  -- The end of the slot of an address.
  module _ (l v : ℕ) where
    abbrev pub slot_end : ℕ
    slot_end = (v / 2 ^ shift T l + 1) * 2 ^ shift T l

    slot_end_split : slot_end ≡ v / 2 ^ shift T l * 2 ^ shift T l + 1 * 2 ^ shift T l
    slot_end_split = add-mul (v / 2 ^ shift T l) 1 (2 ^ shift T l)

    pub slot_end-gt : v < slot_end
    slot_end-gt =
        let p = 2 ^ shift T l in
        let low : v % p < p = mod-lt v (pow-pos (shift T l)) in
        omega (arith, div-add-mod' v p, slot_end_split)

    pub slot_end-le : slot_end ≤ v + 2 ^ shift T l
    slot_end-le = omega (arith, div-add-mod' v (2 ^ shift T l), slot_end_split)

module _ (T : TableMeta) (A : FrameAllocator) (m : Machine T A) where
  -- The level of the entry at which the walk of an address stops.
  unfoldable pub stop_level : ℕ → PhysAddr → ℕ → ℕ
  stop_level zero frame v = zero
  stop_level (suc l) frame v = elim (kind T l (m.table frame (index T (suc l) v))) [
    | vacant ↦ suc l
    | mapping ↦ suc l
    | pointer child ↦ stop_level l child v
  ]

  abbrev pub Starts : ℕ → PhysAddr → ℕ → Type 0
  Starts l frame v = v % 2 ^ shift T (stop_level l frame v) ≡ 0

  stop_level-vacant :
      (l frame v : ℕ)
      → kind T l (m.table frame (index T (suc l) v)) ≡ vacant
      → stop_level (suc l) frame v ≡ suc l
  unfolding stop_level
  stop_level-vacant l frame v k = rw (k, stop_level)

  stop_level-mapping :
      (l frame v : ℕ)
      → kind T l (m.table frame (index T (suc l) v)) ≡ mapping
      → stop_level (suc l) frame v ≡ suc l
  unfolding stop_level
  stop_level-mapping l frame v k = rw (k, stop_level)

  stop_level-pointer :
      (l frame v : ℕ) {child : PhysAddr}
      → kind T l (m.table frame (index T (suc l) v)) ≡ pointer child
      → stop_level (suc l) frame v ≡ stop_level l child v
  unfolding stop_level
  stop_level-pointer l frame v k = rw (k, stop_level)

  -- Where an entry is no pointer, its slot begins at the first address.
  pub Starts-vacant :
      (l frame v : ℕ)
      → kind T l (m.table frame (index T (suc l) v)) ≡ vacant
      → Starts (suc l) frame v
      → v % 2 ^ shift T (suc l) ≡ 0
  Starts-vacant l frame v k s = rw (← stop_level-vacant l frame v k) s

  pub Starts-mapping :
      (l frame v : ℕ)
      → kind T l (m.table frame (index T (suc l) v)) ≡ mapping
      → Starts (suc l) frame v
      → v % 2 ^ shift T (suc l) ≡ 0
  Starts-mapping l frame v k s = rw (← stop_level-mapping l frame v k) s

  pub Starts-pointer :
      (l frame v : ℕ) {child : PhysAddr}
      → kind T l (m.table frame (index T (suc l) v)) ≡ pointer child
      → Starts (suc l) frame v
      → Starts l child v
  Starts-pointer l frame v k s = rw (← stop_level-pointer l frame v k) s

  -- An entry of a page is no pointer.
  pub kind_zero_level : (pte : T.Pte) {child : PhysAddr} → ¬ (kind T 0 pte ≡ pointer child)
  unfolding kind
  kind_zero_level pte k = ground arith

  -- The first address of a slot is a start, whatever the tables hold.
  pub Starts-aligned :
      (l frame v : ℕ)
      → suc l ≤ table_levels T
      → v % 2 ^ shift T (suc l) ≡ 0
      → Starts (suc l) frame v
  Starts-aligned zero frame v h aligned =
      elim (Kind-cases (kind T 0 (m.table frame (index T 1 v)))) [
        | inl k ↦ rw (stop_level-vacant 0 frame v k) aligned
        | inr (inl k) ↦ rw (stop_level-mapping 0 frame v k) aligned
        | inr (inr (q, k)) ↦ absurd (kind_zero_level _ k)
      ]
  Starts-aligned (suc l) frame v h aligned =
      elim (Kind-cases (kind T (suc l) (m.table frame (index T (suc (suc l)) v)))) [
        | inl k ↦ rw (stop_level-vacant (suc l) frame v k) aligned
        | inr (inl k) ↦ rw (stop_level-mapping (suc l) frame v k) aligned
        | inr (inr (q, k)) ↦
            let aligned' = aligned_suc T (suc l) v (omega arith) h aligned in
            rw (stop_level-pointer (suc l) frame v k) (Starts-aligned l q v (omega arith) aligned')
      ]

-- ===== src/Paging/Geometry.antt =====
-- crates/page-table-generic/src/frame.rs: how an address is cut into one index for each level.
-- Level 1 holds the pages.
pub mod Shifts
pub mod Slots
use sparreal_os.Prelude.{
  ℕ, ◌+◌, ◌-◌, ◌*◌, ◌/◌, ◌%◌, ◌^◌, ◌≤◌, ◌<◌, bit_and, List, [], ◌∷◌, Option, none, some, ◌||◌, ◌==◌,
  if◌then◌else◌, ltb, get_or, drop,
}
use sparreal_os.Paging.Config.{VirtAddr, usize_mod}
use sparreal_os.Paging.Meta.{TableMeta, page_size, table_levels}

unfoldable pub sum : List ℕ → ℕ
sum [] = 0
sum (b ∷ bs) = b + sum bs

module _ (T : TableMeta) where
  -- The index bits of the levels below `level`.
  unfoldable pub low_bits : ℕ → ℕ
  low_bits level = sum (drop (table_levels T - level + 1) T.level_bits)

  -- `PAGE_SIZE << shift`
  pub level_size : ℕ → ℕ
  level_size level =
      if level == 1 then page_size T else page_size T * 2 ^ low_bits level % usize_mod

  pub level_shift : ℕ → ℕ
  level_shift level = if level == 1 then T.page_shift else T.page_shift + low_bits level

  abbrev pub level_index_bits : ℕ → ℕ
  level_index_bits level = get_or T.level_bits (table_levels T - level) 0

  -- `none` is the panic on a level out of range.
  pub virt_to_index : VirtAddr → ℕ → Option ℕ
  virt_to_index vaddr level =
      if level == 0 || ltb (table_levels T) level
      then none
      else some (bit_and (vaddr / 2 ^ level_shift level) (2 ^ level_index_bits level - 1))

  pub reconstruct_vaddr : ℕ → ℕ → VirtAddr → VirtAddr
  reconstruct_vaddr index level base_vaddr = base_vaddr + index * level_size level

  -- `cal_index_bits`
  unfoldable pub index_bits : ℕ
  index_bits = sum T.level_bits

  unfoldable pub valid_bits : ℕ
  valid_bits = index_bits + T.page_shift

-- What the code relies on in the constants of a `TableMeta`: virtual addresses fit in a `usize`,
-- every level has an index, and every index has an entry.
pub record GeometryLaws (T : TableMeta) : Type 0 where
  pub width : valid_bits T ≤ 64
  pub nonempty : 0 < table_levels T
  pub index_pos : (l : ℕ) → 0 < l → l ≤ table_levels T → 0 < level_index_bits T l
  pub indexed : (l : ℕ) → 0 < l → l ≤ table_levels T → 2 ^ level_index_bits T l ≤ T.entries

-- ===== src/Paging/Frame/Entries.antt =====
-- Reads of a table: at a level of the page table no index is out of bounds.
use native.Mathlib.Nat.{le_trans}
use sparreal_os.Prelude.{ℕ, ◌≤◌, ◌<◌, ◌≡◌, arith}
use sparreal_os.Prelude.Outcome.{ok}
use sparreal_os.Paging.Frame.{index_of, read_entry}
use sparreal_os.Paging.Geometry.{GeometryLaws}
use sparreal_os.Paging.Geometry.Slots.{index, index-lt, virt_to_index_lem}
use sparreal_os.Paging.Meta.{TableMeta, FrameAllocator, Machine, table_levels}

module _ (T : TableMeta) (A : FrameAllocator) (g : GeometryLaws T) where
  pub index_of_lem :
      (m : Machine T A) (v l : ℕ)
      → 0 < l
      → l ≤ table_levels T
      → index_of T A v l m ≡ ok (index T l v) m
  unfolding index_of
  index_of_lem m v l pos h = rw (virt_to_index_lem T v l pos h, index_of)

  pub read_entry_lem :
      (m : Machine T A) (frame v l : ℕ)
      → 0 < l
      → l ≤ table_levels T
      → read_entry T A frame (index T l v) m ≡ ok (m.table frame (index T l v)) m
  unfolding read_entry
  read_entry_lem m frame v l pos h = ground (arith, le_trans (index-lt T l v) (g.indexed l pos h))

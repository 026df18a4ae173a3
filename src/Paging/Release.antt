-- ===== src/Paging/Release.antt =====
-- crates/page-table-generic/src/frame.rs and table.rs: the tables of a page table are handed back to
-- the allocator. The pages that it maps are not.
pub mod Reach
pub mod Entries
pub mod Children
pub mod Loop
pub mod Correct
pub mod Subtree
mod Tests
use sparreal_os.Prelude.{ℕ, zero, suc, Bool, true, false, not, ◌||◌, ◌==◌, if◌then◌else◌, ltb, leb}
use sparreal_os.Prelude.Outcome.{ok, panic, ◌>>◌, pure, throw}
use sparreal_os.Paging.Config.{PhysAddr, VirtAddr, invalid_config, invalid_range}
use sparreal_os.Paging.Frame.{store_entry}
use sparreal_os.Paging.Meta.{TableMeta, FrameAllocator, Machine, M, table_levels}
use sparreal_os.Paging.Unmap.{release}

module _ (T : TableMeta) (A : FrameAllocator) where
  -- One entry of `deallocate_children`: a table below is handed back by `below`, then unlinked.
  unfoldable pub clear_child :
      (below : PhysAddr → M T A (Unit {0})) → ℕ → PhysAddr → ℕ → M T A (Unit {0})
  clear_child below level frame i m =
      let config = T.to_config (m.table frame i) (ltb 1 level) in
      if not config.valid
      then ok tt m
      else if config.huge || level == 1
      then ok tt m
      else (below config.paddr >> store_entry T A frame i (T.from_config invalid_config)) m

  -- The loop of `deallocate_children` over the first `n` entries, from the last to the first.
  unfoldable pub clear_children :
      (below : PhysAddr → M T A (Unit {0})) → ℕ → PhysAddr → (n : ℕ) → M T A (Unit {0})
  clear_children below level frame zero = pure tt
  clear_children below level frame (suc n) = do
    clear_child below level frame n
    clear_children below level frame n

  -- Below level 0 the subtraction of the source overflows.
  unfoldable pub deallocate_recursive : (level : ℕ) → PhysAddr → M T A (Unit {0})
  deallocate_recursive zero frame = do
    clear_children (λ child m. panic) zero frame T.entries
    release T A frame
  deallocate_recursive (suc l) frame = do
    clear_children (deallocate_recursive l) (suc l) frame T.entries
    release T A frame

  -- `PageTableRef::deallocate`, `PageTableRef::destroy` and the drop of a `PageTable`.
  unfoldable pub deallocate : PhysAddr → M T A (Unit {0})
  deallocate root = deallocate_recursive (table_levels T) root

  -- `Frame::dealloc_entry_recursive`
  unfoldable pub dealloc_entry_recursive : ℕ → PhysAddr → ℕ → M T A Bool
  dealloc_entry_recursive zero frame i m = ok false m
  dealloc_entry_recursive (suc l) frame i m =
      if leb T.entries i || leb (suc l) 1
      then ok false m
      else (let config = T.to_config (m.table frame i) (ltb 1 (suc l)) in
          if not config.valid || config.huge
          then ok false m
          else (deallocate_recursive l config.paddr
                >> store_entry T A frame i (T.from_config invalid_config)
                >> pure true)
              m)

  -- `PageTableRef::deallocate_range`
  unfoldable pub deallocate_range : VirtAddr → VirtAddr → M T A (Unit {0})
  deallocate_range start_vaddr end_vaddr =
      if leb end_vaddr start_vaddr
      then throw (invalid_range "Start address must be less than end address")
      else pure tt

-- ===== src/Paging/Unmap.antt =====
-- crates/page-table-generic/src/map.rs and table.rs: unmapping a range. `unmap_range` is the loop of
-- `unmap_range_recursive`; one round of it is `unmap_round`. The level and the rounds fall as in
-- `map_range`: a child's loop has one round for each byte, and a round advances by at least one.
pub mod Effect
pub mod Slots
pub mod Free
pub mod Rounds
pub mod Steps
pub mod Loop
pub mod Correct
mod Tests
use sparreal_os.Prelude.{
  ℕ, zero, suc, ◌+◌, ◌-◌, ◌*◌, ◌/◌, ◌%◌, ◌≤◌, Bool, true, false, ◌&&◌, ◌||◌, ◌==◌, if◌then◌else◌,
  ltb, leb, min, not,
}
use sparreal_os.Prelude.Outcome.{
  Run, ok, err, panic, out_of_fuel, ◌>>=◌, ◌>>◌, pure, throw, and_then,
}
use sparreal_os.Paging.Config.{
  PhysAddr, VirtAddr, alignment_error, invalid_size, address_overflow, invalid_config, usize_mod,
}
use sparreal_os.Paging.Frame.{index_of, read_entry, store_entry, flush_if, checked}
use sparreal_os.Paging.Geometry.{level_size}
use sparreal_os.Paging.Meta.{TableMeta, FrameAllocator, Machine, M, page_size, table_levels}

pub record UnmapConfig : Type 0 where
  pub start_vaddr : VirtAddr
  pub size : ℕ
  pub flush : Bool

-- How a round ends: at a new position, or at the entry of a table of the level below, to be
-- unmapped up to an address.
pub data Round : Type 0 where
  advance : VirtAddr → Round
  descend : PhysAddr → ℕ → VirtAddr → Round

module _ (T : TableMeta) (A : FrameAllocator) where
  -- The loop of `is_frame_empty` over the entries from `index` on.
  unfoldable pub no_valid : ℕ → PhysAddr → ℕ → Machine T A → Bool
  no_valid zero frame index m = true
  no_valid (suc n) frame index m =
      not (T.to_config (m.table frame index) false).valid && no_valid n frame (suc index) m

  pub is_frame_empty : PhysAddr → Machine T A → Bool
  is_frame_empty frame m = no_valid T.entries frame 0 m

  -- `allocator.dealloc_frame`
  unfoldable pub release : PhysAddr → M T A (Unit {0})
  release frame m = ok tt (record m { frames = A.dealloc_frame frame m.frames })

  -- The end of an iteration behind the recursive call: an empty child is unlinked and freed.
  pub reclaim : PhysAddr → ℕ → PhysAddr → Bool → Bool → M T A Bool
  reclaim frame index child false can_reclaim = pure false
  reclaim frame index child true can_reclaim = do
    store_entry T A frame index (T.from_config invalid_config)
    release child
    pure can_reclaim

  -- What follows the loop.
  pub finish : PhysAddr → Bool → M T A Bool
  finish frame can_reclaim m = if can_reclaim then ok (is_frame_empty frame m) m else ok false m

  -- Steps over an entry that is not valid.
  pub skip_entry : ℕ → VirtAddr → VirtAddr → M T A Round
  skip_entry level vaddr end_vaddr = do
    vaddr' ← checked T A (vaddr + min (level_size T level) (end_vaddr - vaddr))
    pure (advance vaddr')

  module _ (flush : Bool) where
    -- Clears a page or a block; the position moves by `size`.
    pub clear_entry : PhysAddr → ℕ → VirtAddr → ℕ → M T A Round
    clear_entry frame index vaddr size = do
      store_entry T A frame index (T.from_config invalid_config)
      flush_if T A flush vaddr
      vaddr' ← checked T A (vaddr + size)
      pure (advance vaddr')

    pub unmap_round : ℕ → PhysAddr → VirtAddr → VirtAddr → M T A Round
    unfolding clear_entry skip_entry
    unmap_round level frame vaddr end_vaddr = do
      index ← index_of T A vaddr level
      pte ← read_entry T A frame index
      let config = T.to_config pte (ltb 1 level)
      if not config.valid
          then skip_entry level vaddr end_vaddr
          else if level == 1 || config.huge
          then clear_entry frame index vaddr
              (if config.huge then level_size T level else page_size T)
          else do
            entry_end ← checked T A ((vaddr / level_size T level + 1) * level_size T level)
            pure (descend config.paddr index (min entry_end end_vaddr))

    -- The rest of an iteration behind its round.
    pub next_iteration :
        (again : VirtAddr → Bool → M T A Bool) (below : PhysAddr → VirtAddr → M T A Bool)
        → PhysAddr
        → Bool
        → Round
        → M T A Bool
    next_iteration again below frame can_reclaim (advance vaddr') = again vaddr' can_reclaim
    next_iteration again below frame can_reclaim (descend child index next) = do
      child_can_reclaim ← below child next
      can_reclaim' ← reclaim frame index child child_can_reclaim can_reclaim
      again next can_reclaim'

    pub unmap_range : (level rounds : ℕ) → PhysAddr → VirtAddr → VirtAddr → Bool → M T A Bool
    unfolding next_iteration
    unmap_range zero rounds frame vaddr end_vaddr can_reclaim m = elim (ltb vaddr end_vaddr) [
      | false ↦ finish frame can_reclaim m
      | true ↦ panic
    ]
    unmap_range (suc l) zero frame vaddr end_vaddr can_reclaim m = elim (ltb vaddr end_vaddr) [
      | false ↦ finish frame can_reclaim m
      | true ↦ out_of_fuel
    ]
    unmap_range (suc l) (suc rounds) frame vaddr end_vaddr can_reclaim m =
        elim (ltb vaddr end_vaddr) [
          | false ↦ finish frame can_reclaim m
          | true ↦ and_then (unmap_round (suc l) frame vaddr end_vaddr m) (
              next_iteration (λ vaddr' can. unmap_range (suc l) rounds frame vaddr' end_vaddr can)
                (λ child next. unmap_range l (next - vaddr) child vaddr next true) frame
                can_reclaim)
        ]

  pub validate_unmap_params : VirtAddr → ℕ → M T A (Unit {0})
  validate_unmap_params start_vaddr size =
      if size == 0
      then throw (invalid_size "Size cannot be zero in unmap")
      else if not (start_vaddr % page_size T == 0)
      then throw (alignment_error "Start virtual address not page aligned in unmap")
      else if not (size % page_size T == 0)
      then throw (alignment_error "Size not page aligned in unmap")
      else pure tt

  -- `PageTableRef::unmap_with_config`
  pub unmap_with_config : PhysAddr → UnmapConfig → M T A (Unit {0})
  unmap_with_config root c = do
    validate_unmap_params c.start_vaddr c.size
    if leb usize_mod (c.start_vaddr + c.size)
        then throw (address_overflow "Virtual address overflow in unmap_with_config")
        else do
          can_reclaim ←
              unmap_range c.flush (table_levels T) c.size root c.start_vaddr
                (c.start_vaddr + c.size) true
          pure tt

  -- `PageTableRef::unmap`
  pub unmap : PhysAddr → VirtAddr → ℕ → M T A (Unit {0})
  unmap root start_vaddr size = do
    validate_unmap_params start_vaddr size
    if leb usize_mod (start_vaddr + size)
        then throw (address_overflow "Virtual address overflow in unmap")
        else do
          can_reclaim ←
              unmap_range true (table_levels T) size root start_vaddr (start_vaddr + size) true
          pure tt

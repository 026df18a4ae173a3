-- ===== src/Paging/Map.antt =====
-- crates/page-table-generic/src/map.rs: mapping a range. `map_range` is the loop of
-- `map_range_recursive`; one round of it is `map_round`. A level and the rounds that a loop may take
-- are arguments that fall; `map_range` starts a child's loop with one round for each byte, and a
-- round advances by at least one byte.
pub mod Tags
pub mod Writes
pub mod Links
pub mod Effect
pub mod Entry
pub mod Next
pub mod Child
pub mod Rounds
pub mod Ranges
pub mod Correct
use sparreal_os.Prelude.{
  ℕ, zero, suc, ◌+◌, ◌-◌, ◌*◌, ◌/◌, ◌%◌, ◌≤◌, Bool, true, false, ◌&&◌, ◌||◌, ◌==◌, if◌then◌else◌,
  ltb, leb, min, not,
}
use sparreal_os.Prelude.Outcome.{
  Run, ok, err, panic, out_of_fuel, ◌>>=◌, ◌>>◌, pure, throw, and_then, require,
}
use sparreal_os.Paging.Config.{
  PhysAddr, VirtAddr, PteConfig, hierarchy_error, mapping_conflict, alignment_error, invalid_size,
  address_overflow, saturating_add, saturating_mul, usize_mod,
}
use sparreal_os.Paging.Frame.{
  index_of, read_entry, write_entry, store_entry, flush_if, new_frame, checked,
}
use sparreal_os.Paging.Geometry.{level_size}
use sparreal_os.Paging.Meta.{TableMeta, FrameAllocator, Machine, M, page_size, table_levels}

-- The fields of `MapRecursiveConfig` that the recursion passes on unchanged.
pub record MapOptions : Type 0 where
  pub allow_huge : Bool
  pub flush : Bool
  pub pte_template : PteConfig

pub record MapConfig : Type 0 where
  pub vaddr : VirtAddr
  pub paddr : PhysAddr
  pub size : ℕ
  pub pte : PteConfig
  pub allow_huge : Bool
  pub flush : Bool

-- How a round ends: at a new position, or in a table of the level below that is to be mapped up to
-- an address.
pub data Round : Type 0 where
  advance : VirtAddr → PhysAddr → Round
  descend : PhysAddr → VirtAddr → Round

abbrev pub block_config : PteConfig → PhysAddr → PteConfig
block_config c p = record c { paddr = p; valid = true; huge = true; is_dir = true }

abbrev pub page_config : PteConfig → PhysAddr → PteConfig
page_config c p = record c { paddr = p; valid = true; huge = false; is_dir = false }

abbrev pub table_config : PteConfig → PhysAddr → PteConfig
table_config c p = record c { paddr = p; valid = true; huge = false; is_dir = true }

module _ (T : TableMeta) (A : FrameAllocator) (o : MapOptions) where
  -- Writes a final mapping over an entry that is not valid.
  pub map_entry : PhysAddr → ℕ → PteConfig → VirtAddr → PhysAddr → ℕ → M T A Round
  map_entry frame index config vaddr paddr size = do
    pte ← read_entry T A frame index
    if T.valid pte then throw (mapping_conflict vaddr paddr) else do
      store_entry T A frame index (T.from_config config)
      flush_if T A o.flush vaddr
      vaddr' ← checked T A (vaddr + size)
      paddr' ← checked T A (paddr + size)
      pure (advance vaddr' paddr')

  pub use_block : ℕ → VirtAddr → PhysAddr → VirtAddr → Bool
  use_block level vaddr paddr end_vaddr =
      o.allow_huge
      && ltb 1 level
      && leb level T.max_block_level
      && leb (level_size T level) (end_vaddr - vaddr)
      && vaddr % level_size T level == 0
      && paddr % level_size T level == 0

  -- The table that an entry points at; a new one, if the entry is not valid.
  pub child_table : PhysAddr → ℕ → M T A PhysAddr
  child_table frame index = do
    pte ← read_entry T A frame index
    let config = T.to_config pte true
    if config.valid
        then (if config.huge
            then throw (hierarchy_error "Cannot create page table under huge page")
            else pure config.paddr)
        else do
          child ← new_frame T A
          store_entry T A frame index (T.from_config (table_config o.pte_template child))
          pure child

  pub next_level_vaddr : ℕ → VirtAddr → VirtAddr → VirtAddr
  next_level_vaddr level vaddr end_vaddr =
      min (saturating_mul (saturating_add (vaddr / level_size T level) 1) (level_size T level))
        end_vaddr

  pub map_round : ℕ → PhysAddr → VirtAddr → PhysAddr → VirtAddr → M T A Round
  unfolding map_entry use_block child_table
  map_round level frame vaddr paddr end_vaddr = do
    index ← index_of T A vaddr level
    if use_block level vaddr paddr end_vaddr
        then map_entry frame index (block_config o.pte_template paddr) vaddr paddr
            (level_size T level)
        else if level == 1
        then map_entry frame index (page_config o.pte_template paddr) vaddr paddr (page_size T)
        else do
          child ← child_table frame index
          pure (descend child (next_level_vaddr level vaddr end_vaddr))

  -- The rest of an iteration behind its round: the loop goes on, or a table below is mapped first.
  pub next_iteration :
      (again : VirtAddr → PhysAddr → M T A (Unit {0}))
      (below : PhysAddr → VirtAddr → M T A (Unit {0}))
      → VirtAddr
      → PhysAddr
      → Round
      → M T A (Unit {0})
  next_iteration again below vaddr paddr (advance vaddr' paddr') = again vaddr' paddr'
  next_iteration again below vaddr paddr (descend child next) = do
    below child next
    paddr' ← checked T A (paddr + (next - vaddr))
    again next paddr'

  pub map_range : (level rounds : ℕ) → PhysAddr → VirtAddr → PhysAddr → VirtAddr → M T A (Unit {0})
  unfolding next_iteration
  map_range zero rounds frame vaddr paddr end_vaddr m = elim (ltb vaddr end_vaddr) [
    | false ↦ ok tt m
    | true ↦ panic
  ]
  map_range (suc l) zero frame vaddr paddr end_vaddr m = elim (ltb vaddr end_vaddr) [
    | false ↦ ok tt m
    | true ↦ out_of_fuel
  ]
  map_range (suc l) (suc rounds) frame vaddr paddr end_vaddr m = elim (ltb vaddr end_vaddr) [
    | false ↦ ok tt m
    | true ↦ and_then (map_round (suc l) frame vaddr paddr end_vaddr m) (
        next_iteration (λ vaddr' paddr'. map_range (suc l) rounds frame vaddr' paddr' end_vaddr)
          (λ child next. map_range l (next - vaddr) child vaddr paddr next) vaddr paddr)
  ]

module _ (T : TableMeta) (A : FrameAllocator) where
  pub validate_map_config : MapConfig → M T A (Unit {0})
  validate_map_config c =
      if c.size == 0
      then throw (invalid_size "Size cannot be zero")
      else if not (c.vaddr % page_size T == 0)
      then throw (alignment_error "Virtual address not page aligned")
      else if not (c.paddr % page_size T == 0)
      then throw (alignment_error "Physical address not page aligned")
      else pure tt

  abbrev pub options : MapConfig → MapOptions
  options c = record { allow_huge = c.allow_huge; flush = c.flush; pte_template = c.pte }

  -- `PageTableRef::map`
  pub map_table : PhysAddr → MapConfig → M T A (Unit {0})
  map_table root c = do
    validate_map_config c
    if leb usize_mod (c.vaddr + c.size) || leb usize_mod (c.paddr + c.size)
        then throw (address_overflow "Virtual or physical address overflow")
        else map_range T A (options c) (table_levels T) c.size root c.vaddr c.paddr
            (c.vaddr + c.size)

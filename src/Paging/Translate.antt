-- ===== src/Paging/Translate.antt =====
-- crates/page-table-generic/src/frame.rs and table.rs: the walk from a table down to the entry that
-- maps an address, and the physical address that it gives.
pub mod Lookup
pub mod Answers
use Prim.Native.String.{String}
use sparreal_os.Prelude.{ℕ, zero, suc, ◌+◌, ◌%◌, Bool, true, false, ◌||◌, ◌==◌, if◌then◌else◌, ltb}
use sparreal_os.Prelude.Outcome.{
  Run, ok, err, panic, out_of_fuel, ◌>>=◌, ◌>>◌, pure, throw, and_then,
}
use sparreal_os.Paging.Config.{PhysAddr, VirtAddr, not_mapped, hierarchy_error, PteConfig}
use sparreal_os.Paging.Frame.{index_of, read_entry}
use sparreal_os.Paging.Geometry.{level_size}
use sparreal_os.Paging.Meta.{TableMeta, FrameAllocator, Machine, M, page_size, table_levels}

module _ (T : TableMeta) where
  -- The physical address that an entry of a level gives for an address.
  unfoldable pub phys_of : VirtAddr → T.Pte × ℕ → PhysAddr
  phys_of vaddr (pte, level) =
      let config = T.to_config pte (ltb 1 level) in
      if config.huge
      then config.paddr + vaddr % level_size T level
      else config.paddr + vaddr % page_size T

module _ (T : TableMeta) (A : FrameAllocator) where
  -- The entry and the level that it stands at. Level 0 is the panic of `virt_to_index`.
  pub translate_recursive_with_level : (level : ℕ) → PhysAddr → VirtAddr → M T A (T.Pte × ℕ)
  translate_recursive_with_level zero frame vaddr = do
    index ← index_of T A vaddr 0
    throw not_mapped
  translate_recursive_with_level (suc l) frame vaddr = do
    index ← index_of T A vaddr (suc l)
    pte ← read_entry T A frame index
    let config = T.to_config pte (ltb 1 (suc l))
    elim config.valid [
      | false ↦ throw not_mapped
      | true ↦ elim (config.huge || suc l == 1) [
        | true ↦ pure (pte, suc l)
        | false ↦ elim (ltb 1 (suc l)) [
          | true ↦ translate_recursive_with_level l (T.to_config pte (ltb 1 (suc l))).paddr vaddr
          | false ↦ throw (hierarchy_error "Invalid page table level during translation")
        ]
      ]
    ]

  pub translate : PhysAddr → VirtAddr → M T A (PhysAddr × T.Pte)
  translate root vaddr = do
    (pte, level) ← translate_recursive_with_level (table_levels T) root vaddr
    pure (phys_of T vaddr (pte, level), pte)

  pub translate_phys : PhysAddr → VirtAddr → M T A PhysAddr
  translate_phys root vaddr = do (p, _) ← translate root vaddr; pure p

  pub is_mapped : PhysAddr → VirtAddr → Machine T A → Bool
  is_mapped root vaddr m = elim (translate root vaddr m) [ ok _ _ ↦ true | _ ↦ false ]

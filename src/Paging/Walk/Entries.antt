-- ===== src/Paging/Walk/Entries.antt =====
-- The entries that the walker is to give: a recursion over the tables, with no stack.
use sparreal_os.Prelude.{
  ℕ, zero, suc, ◌+◌, ◌-◌, ◌*◌, ◌^◌, ◌≤◌, ◌<◌, ◌≡◌, List, [], ◌∷◌, ◌++◌, if◌then◌else◌, ltb,
}
use sparreal_os.Paging.Config.{PhysAddr, VirtAddr}
use sparreal_os.Paging.Geometry.{GeometryLaws, level_size, level_index_bits}
use sparreal_os.Paging.Meta.{TableMeta, FrameAllocator, Machine, table_levels}
use sparreal_os.Paging.Walk.{WalkState, PteInfo, info_of, goes_into}

module _ (T : TableMeta) (A : FrameAllocator) (m : Machine T A) (start : VirtAddr) where
  -- The entries of a table from `index` on, `n` of them, each followed by those of the table that it
  -- points at. An entry that begins below the start is left out with all that is below it.
  abbrev vaddr_of : ℕ → ℕ → VirtAddr → VirtAddr
  vaddr_of level index base = base + index * level_size T level

  unfoldable pub walk_entries : (level n : ℕ) → PhysAddr → ℕ → VirtAddr → List (PteInfo T)
  walk_entries level zero frame index base = []
  walk_entries zero (suc n) frame index base = []
  walk_entries (suc l) (suc n) frame index base =
      let rest = walk_entries (suc l) n frame (suc index) base in
      let below =
        walk_entries l T.entries (T.to_config (m.table frame index) (ltb 1 (suc l))).paddr 0
          (vaddr_of (suc l) index base) in
      if ltb (vaddr_of (suc l) index base) start
      then rest
      else info_of T (suc l) (vaddr_of (suc l) index base) (m.table frame index)
        ∷ (if goes_into T (suc l) (m.table frame index) then below ++ rest else rest)

  -- The entries that a stack of tables still has.
  unfoldable pub stack_entries : List WalkState → List (PteInfo T)
  stack_entries [] = []
  stack_entries (s ∷ ss) =
      walk_entries s.level (T.entries - s.index) s.frame s.index s.base_vaddr ++ stack_entries ss

  -- Up to the first entry that lies behind the range.
  unfoldable pub cut : VirtAddr → List (PteInfo T) → List (PteInfo T)
  cut end_vaddr [] = []
  cut end_vaddr (i ∷ is) = if ltb i.vaddr end_vaddr then i ∷ cut end_vaddr is else []

-- What the entries of a table cover fits in the table above, and the whole in the address space.
pub record WalkLaws (T : TableMeta) : Type 0 where
  pub geometry : GeometryLaws T
  pub full : (l : ℕ) → 0 < l → l ≤ table_levels T → T.entries ≡ 2 ^ level_index_bits T l
  pub shallow : table_levels T ≤ 8

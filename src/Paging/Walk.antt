-- ===== src/Paging/Walk.antt =====
-- crates/page-table-generic/src/walk.rs: the walker, an iterator over the entries of a page table that
-- keeps a stack of the tables it is in, the innermost first.
pub mod Entries
pub mod Order
pub mod Calls
mod Tests
use sparreal_os.Prelude.{
  ℕ, zero, suc, ◌+◌, ◌-◌, ◌*◌, Bool, true, false, not, Option, none, some, List, [], ◌∷◌, length,
  ◌&&◌, ◌||◌, ◌==◌, if◌then◌else◌, ltb, leb,
}
use sparreal_os.Paging.Config.{PhysAddr, VirtAddr, usize_mod}
use sparreal_os.Paging.Geometry.{level_size, reconstruct_vaddr}
use sparreal_os.Paging.Meta.{TableMeta, FrameAllocator, Machine, table_levels}

pub record WalkConfig : Type 0 where
  pub start_vaddr : VirtAddr
  pub end_vaddr : VirtAddr

pub record WalkState : Type 0 where
  pub frame : PhysAddr
  pub level : ℕ
  pub index : ℕ
  pub base_vaddr : VirtAddr

pub record PageTableWalker : Type 0 where
  pub config : WalkConfig
  pub stack : List WalkState
  pub finished : Bool

abbrev pub max_walk_depth : ℕ
max_walk_depth = 8

-- `stack.push(state).ok()`: a full stack stays as it is.
unfoldable pub push_state : WalkState → List WalkState → List WalkState
push_state state stack = if ltb (length stack) max_walk_depth then state ∷ stack else stack

abbrev pub next_index : WalkState → WalkState
next_index s = record s { index = suc s.index }

module _ (T : TableMeta) where
  pub record PteInfo : Type 0 where
    pub level : ℕ
    pub vaddr : VirtAddr
    pub is_final_mapping : Bool
    pub pte : T.Pte

  -- How a round of the loop ends: with an entry, with the end of the walk, or with another round.
  pub data Round : Type 0 where
    item : PteInfo → PageTableWalker → Round
    again ended : PageTableWalker → Round
    overflow : Round

  -- What a call of `next` gives.
  pub data Answer : Type 0 where
    entry : PteInfo → PageTableWalker → Answer
    finished_walk : PageTableWalker → Answer
    panicked no_fuel : Answer

  -- The address of an entry; `none` where its arithmetic on `usize` overflows.
  unfoldable pub entry_vaddr : ℕ → ℕ → VirtAddr → Option VirtAddr
  entry_vaddr index level base =
      if ltb (base + index * level_size T level) usize_mod
      then some (base + index * level_size T level)
      else none

  -- What the walker says of an entry.
  unfoldable pub info_of : ℕ → VirtAddr → T.Pte → PteInfo
  info_of level vaddr pte =
      let c = T.to_config pte (ltb 1 level) in
      record {
        level = level;
        vaddr = vaddr;
        is_final_mapping = c.valid && (c.huge || level == 1);
        pte = pte;
      }

  -- Whether an entry points at a table that the walker goes into.
  unfoldable pub goes_into : ℕ → T.Pte → Bool
  goes_into level pte =
      let c = T.to_config pte (ltb 1 level) in c.valid && not c.huge && ltb 1 level

  abbrev pub child_state : ℕ → VirtAddr → T.Pte → WalkState
  child_state level vaddr pte = record {
    frame = (T.to_config pte (ltb 1 level)).paddr;
    level = level - 1;
    index = 0;
    base_vaddr = vaddr;
  }

  module _ (A : FrameAllocator) (m : Machine T A) where
    -- `PageTableWalker::new` and the stack that it starts with.
    unfoldable pub new_walker : PhysAddr → WalkConfig → PageTableWalker
    new_walker root config =
        if ltb config.start_vaddr config.end_vaddr
        then record {
          config = config;
          stack = record { frame = root; level = table_levels T; index = 0; base_vaddr = 0 } ∷ [];
          finished = false;
        }
        else record { config = config; stack = []; finished = true }

    -- What a round does with an entry that lies in the range.
    unfoldable pub visit : PageTableWalker → WalkState → List WalkState → VirtAddr → T.Pte → Round
    visit w s ss vaddr pte =
        if goes_into s.level pte
        then item (info_of s.level vaddr pte)
            (record w { stack = push_state (child_state s.level vaddr pte) (next_index s ∷ ss) })
        else item (info_of s.level vaddr pte) (record w { stack = next_index s ∷ ss })

    unfoldable pub in_range :
        PageTableWalker → WalkState → List WalkState → VirtAddr → T.Pte → Round
    in_range w s ss vaddr pte =
        if ltb vaddr w.config.start_vaddr
        then again (record w { stack = next_index s ∷ ss })
        else if leb w.config.end_vaddr vaddr
        then ended (record w { stack = next_index s ∷ ss; finished = true })
        else visit w s ss vaddr pte

    -- A round of the loop of `find_next_entry` on a stack.
    unfoldable pub walk_round : PageTableWalker → List WalkState → Round
    walk_round w [] = ended (record w { finished = true })
    walk_round w (s ∷ ss) =
        if leb T.entries s.index
        then again (record w { stack = ss })
        else elim (entry_vaddr s.index s.level s.base_vaddr) [
          | none ↦ overflow
          | some vaddr ↦ in_range w s ss vaddr (m.table s.frame s.index)
        ]

    -- What follows a round.
    unfoldable pub after_round : (PageTableWalker → Answer) → Round → Answer
    after_round loop (item i w') = entry i w'
    after_round loop (ended w') = finished_walk w'
    after_round loop (again w') = loop w'
    after_round loop overflow = panicked

    unfoldable pub find_next_entry : ℕ → PageTableWalker → Answer
    find_next_entry zero w = no_fuel
    find_next_entry (suc fuel) w =
        if w.finished
        then finished_walk w
        else after_round (find_next_entry fuel) (walk_round w w.stack)

    -- The entries that the tables of the stack still have.
    unfoldable pub remaining : List WalkState → ℕ
    remaining [] = 0
    remaining (s ∷ ss) = suc (T.entries - s.index) + remaining ss

    -- `Iterator::next`
    unfoldable pub next : PageTableWalker → Answer
    next w = find_next_entry (suc (remaining w.stack)) w

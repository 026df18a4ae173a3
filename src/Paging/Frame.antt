-- ===== src/Paging/Frame.antt =====
-- crates/page-table-generic/src/frame.rs: a frame is the address of a page that holds one table.
pub mod Entries
use sparreal_os.Prelude.{
  ℕ, ◌+◌, Bool, true, false, Option, none, some, List, ◌∷◌, ◌&&◌, ◌==◌, if◌then◌else◌, ltb,
}
use sparreal_os.Prelude.Outcome.{ok, err, panic, require, ◌>>=◌, ◌>>◌, pure}
use sparreal_os.Paging.Config.{PhysAddr, VirtAddr, PteConfig, PagingError, no_memory, usize_mod}
use sparreal_os.Paging.Geometry.{virt_to_index}
use sparreal_os.Paging.Meta.{TableMeta, FrameAllocator, Machine, M}

module _ (T : TableMeta) (A : FrameAllocator) where
  -- `Frame::virt_to_index`, with its panic.
  pub index_of : VirtAddr → ℕ → M T A ℕ
  index_of vaddr level m = elim (virt_to_index T vaddr level) [ none ↦ panic | some i ↦ ok i m ]

  -- `entries[index]`, which panics out of bounds.
  pub read_entry : PhysAddr → ℕ → M T A T.Pte
  read_entry frame index m = if ltb index T.entries then ok (m.table frame index) m else panic

  -- `entries_mut[index] = pte`, at an index that `read_entry` has checked.
  unfoldable pub write_entry : PhysAddr → ℕ → T.Pte → Machine T A → Machine T A
  write_entry frame index pte m = record m {
    table = λ p i. if p == frame && i == index then pte else m.table p i;
  }

  unfoldable pub store_entry : PhysAddr → ℕ → T.Pte → M T A (Unit {0})
  unfolding write_entry
  store_entry frame index pte m = ok tt (write_entry frame index pte m)

  -- `T::flush(Some(vaddr))`, if the configuration asks for it.
  unfoldable pub flush_if : Bool → VirtAddr → M T A (Unit {0})
  flush_if false vaddr m = ok tt m
  flush_if true vaddr m = ok tt (record m { flushed = vaddr ∷ m.flushed })

  -- `Frame::new`: allocates a frame and clears it.
  unfoldable pub zeroed : PhysAddr → A.State → Machine T A → Machine T A
  zeroed frame state m = record m {
    table = λ p i. if p == frame then T.zero_entry else m.table p i;
    frames = state;
  }

  unfoldable pub new_frame : M T A PhysAddr
  unfolding zeroed
  new_frame m = elim (A.alloc_frame m.frames) [
    | none ↦ err no_memory m
    | some (frame, state) ↦ ok frame (zeroed frame state m)
  ]

  -- `a + b` on `usize`, which panics on overflow.
  unfoldable pub checked : ℕ → M T A ℕ
  checked n m = if ltb n usize_mod then ok n m else panic

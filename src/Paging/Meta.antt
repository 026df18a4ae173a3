-- ===== src/Paging/Meta.antt =====
-- crates/page-table-generic/src/lib.rs: the traits `TableMeta`, `PageTableEntry` and
-- `FrameAllocator`, as records of operations with the laws that the code relies on; and the memory
-- that page table code works on.
use sparreal_os.Prelude.{
  ℕ, ◌%◌, ◌^◌, ◌<◌, ◌≡◌, Bool, true, false, not, ◌&&◌, ◌||◌, Option, some, List, ◌==◌, length,
}
use sparreal_os.Prelude.Outcome.{Run}
use sparreal_os.Paging.Config.{PhysAddr, VirtAddr, PagingError, PteConfig}

-- `PAGE_SIZE` is a power of two, given by its exponent; `entries` is `PAGE_SIZE / size_of::<P>()`,
-- and `zero_entry` is the entry whose bytes are all zero.
pub record TableMeta : Type 1 where
  pub Pte : Type 0
  pub page_shift : ℕ
  pub level_bits : List ℕ
  pub max_block_level : ℕ
  pub entries : ℕ
  pub zero_entry : Pte
  pub from_config : PteConfig → Pte
  pub to_config : Pte → Bool → PteConfig
  pub valid : Pte → Bool

pub record FrameAllocator : Type 1 where
  pub State : Type 0
  pub alloc_frame : State → Option (PhysAddr × State)
  pub dealloc_frame : PhysAddr → State → State

abbrev pub page_size : TableMeta → ℕ
page_size T = 2 ^ T.page_shift

abbrev pub table_levels : TableMeta → ℕ
table_levels T = length T.level_bits

-- A physical address that an entry can hold: of a page, and below the width of the address field.
abbrev pub Fits : TableMeta → ℕ → PhysAddr → Type 0
Fits T limit p = (p % page_size T ≡ 0) × (p < limit)

-- What the code relies on in an implementation of `PageTableEntry`.
pub record EntryLaws (T : TableMeta) : Type 0 where
  pub phys_limit : ℕ
  pub valid_lem : (e : T.Pte) (dir : Bool) → T.valid e ≡ (T.to_config e dir).valid
  pub zero_entry_lem : (dir : Bool) → (T.to_config T.zero_entry dir).valid ≡ false
  pub from_invalid :
      (c : PteConfig) (dir : Bool)
      → c.valid ≡ false
      → (T.to_config (T.from_config c) dir).valid ≡ false
  pub from_valid :
      (c : PteConfig) (dir : Bool)
      → c.valid ≡ true
      → (T.to_config (T.from_config c) dir).valid ≡ true
  pub from_huge :
      (c : PteConfig)
      → c.valid ≡ true
      → (c.huge ≡ true → c.is_dir ≡ true)
      → (T.to_config (T.from_config c) c.is_dir).huge ≡ c.huge
  pub from_paddr :
      (c : PteConfig)
      → c.valid ≡ true
      → Fits T phys_limit c.paddr
      → (T.to_config (T.from_config c) c.is_dir).paddr ≡ c.paddr

-- What the code relies on in an allocator: a frame that it hands out is no one's.
pub record FrameLaws (T : TableMeta) (limit : ℕ) (A : FrameAllocator) : Type 0 where
  pub live : A.State → PhysAddr → Bool
  pub alloc_fresh :
      (s : A.State) {p : PhysAddr} {s' : A.State}
      → A.alloc_frame s ≡ some (p, s')
      → live s p ≡ false
  pub alloc_live :
      (s : A.State) {p : PhysAddr} {s' : A.State}
      → A.alloc_frame s ≡ some (p, s')
      → (q : PhysAddr) → live s' q ≡ ((q == p) || live s q)
  pub alloc_fits :
      (s : A.State) {p : PhysAddr} {s' : A.State} → A.alloc_frame s ≡ some (p, s') → Fits T limit p
  pub dealloc_live :
      (s : A.State) (p q : PhysAddr) → live (A.dealloc_frame p s) q ≡ (not (q == p) && live s q)

-- The memory of the page tables by frame and index, the allocator, and the calls of `T::flush`,
-- the latest first.
module _ (T : TableMeta) (A : FrameAllocator) where
  pub record Machine : Type 0 where
    pub table : PhysAddr → ℕ → T.Pte
    pub frames : A.State
    pub flushed : List VirtAddr

  abbrev pub M : Type 0 → Type 0
  M B = Machine → Run PagingError Machine B

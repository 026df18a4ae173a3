-- ===== src/Paging/Config.antt =====
-- crates/page-table-generic/src/def.rs: the errors and the decoded form of a page table entry.
-- Addresses are `usize`, numbers below `usize_mod`.
use Prim.Native.String.{String}
use sparreal_os.Prelude.{ℕ, ◌+◌, ◌*◌, ◌^◌, Bool, false, ltb, if◌then◌else◌}

abbrev pub usize_mod : ℕ
usize_mod = 2 ^ 64

abbrev pub VirtAddr : Type 0
VirtAddr = ℕ

abbrev pub PhysAddr : Type 0
PhysAddr = ℕ

pub data PagingError : Type 0 where
  no_memory : PagingError
  alignment_error : String → PagingError
  mapping_conflict : VirtAddr → PhysAddr → PagingError
  address_overflow : String → PagingError
  invalid_size : String → PagingError
  hierarchy_error : String → PagingError
  invalid_range : String → PagingError
  not_mapped : PagingError

pub data MemAttributes : Type 0 where
  normal per_cpu device uncached : MemAttributes

pub record PteConfig : Type 0 where
  pub paddr : PhysAddr
  pub valid : Bool
  pub read : Bool
  pub writable : Bool
  pub executable : Bool
  pub lower : Bool
  pub dirty : Bool
  pub global : Bool
  pub is_dir : Bool
  pub huge : Bool
  pub mem_attr : MemAttributes

-- `PteConfig { valid: false, ..Default::default() }`
abbrev pub invalid_config : PteConfig
invalid_config = record {
  paddr = 0;
  valid = false;
  read = false;
  writable = false;
  executable = false;
  lower = false;
  dirty = false;
  global = false;
  is_dir = false;
  huge = false;
  mem_attr = normal;
}

-- `usize::saturating_add` and `usize::saturating_mul`.
unfoldable pub saturating_add : ℕ → ℕ → ℕ
saturating_add a b = if ltb (a + b) usize_mod then a + b else 0xffff_ffff_ffff_ffff

unfoldable pub saturating_mul : ℕ → ℕ → ℕ
saturating_mul a b = if ltb (a * b) usize_mod then a * b else 0xffff_ffff_ffff_ffff

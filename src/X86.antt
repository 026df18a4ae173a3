-- ===== src/X86.antt =====
-- crates/someboot/src/arch/x86_64/paging.rs: the 64-bit page table entry of x86_64. The masks are
-- disjoint, so the bits that the code gathers by `|=` are a sum.
pub mod Laws
mod Tests
use sparreal_os.Prelude.{
  ℕ, ◌+◌, ◌*◌, ◌/◌, ◌%◌, ◌^◌, Bool, true, false, not, ◌&&◌, ◌||◌, if◌then◌else◌, [], ◌∷◌,
}
use sparreal_os.Prelude.Fields.{field, is_set, bit}
use sparreal_os.Paging.Config.{PteConfig, MemAttributes, normal, per_cpu, device, uncached}
use sparreal_os.Paging.Meta.{TableMeta}

-- The masks `PTE_*`: each bit with its offset.
unfoldable pub pack :
    (present writable user write_through cache_disable accessed dirty huge global page
      no_execute : ℕ)
    → ℕ
pack present writable user write_through cache_disable accessed dirty huge global page no_execute =
    present
    + writable * 2 ^ 1
    + user * 2 ^ 2
    + write_through * 2 ^ 3
    + cache_disable * 2 ^ 4
    + accessed * 2 ^ 5
    + dirty * 2 ^ 6
    + huge * 2 ^ 7
    + global * 2 ^ 8
    + page * 2 ^ 12
    + no_execute * 2 ^ 63

unfoldable pub is_uncached : MemAttributes → Bool
is_uncached device = true
is_uncached uncached = true
is_uncached normal = false
is_uncached per_cpu = false

unfoldable pub is_leaf : PteConfig → Bool
is_leaf c = not c.is_dir || c.huge

unfoldable pub from_config : PteConfig → ℕ
from_config c =
    pack (bit c.valid) (bit c.writable) (bit c.lower) (bit (is_uncached c.mem_attr))
      (bit (is_uncached c.mem_attr)) (bit c.valid) (bit c.dirty) (bit (c.is_dir && c.huge))
      (bit c.global) (c.paddr / 2 ^ 12 % 2 ^ 40) (bit (is_leaf c && not c.executable))

unfoldable pub to_config : ℕ → Bool → PteConfig
to_config pte is_dir = record {
  paddr = field pte 12 40 * 2 ^ 12;
  valid = is_set pte 0;
  read = is_set pte 0;
  writable = is_set pte 1;
  executable = not (is_set pte 63);
  lower = is_set pte 2;
  dirty = is_set pte 6;
  global = is_set pte 8;
  is_dir = is_dir;
  huge = is_dir && is_set pte 7;
  mem_attr = if is_set pte 4 || is_set pte 3 then device else normal;
}

unfoldable pub valid : ℕ → Bool
valid pte = is_set pte 0

-- `Generic`: four levels of nine bits, pages of 4 KiB, blocks of 2 MiB.
abbrev pub Generic : TableMeta
Generic = record {
  Pte = ℕ;
  page_shift = 12;
  level_bits = 9 ∷ 9 ∷ 9 ∷ 9 ∷ [];
  max_block_level = 2;
  entries = 512;
  zero_entry = 0;
  from_config = from_config;
  to_config = to_config;
  valid = valid;
}

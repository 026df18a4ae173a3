-- ===== src/Loongarch.antt =====
-- crates/someboot/src/arch/loongarch64/pte.rs and paging.rs: the 64-bit page table entry of
-- loongarch64, with pages of 4 KiB. A register value is formed by `|`: the fields are disjoint but
-- for the bit `G` of a block, which is the lowest bit of its address.
pub mod Laws
mod Tests
use sparreal_os.Prelude.{
  ℕ, ◌+◌, ◌*◌, ◌/◌, ◌%◌, ◌^◌, Bool, true, false, not, ◌==◌, if◌then◌else◌, [], ◌∷◌, bit_or,
}
use sparreal_os.Prelude.Fields.{field, is_set, bit}
use sparreal_os.Paging.Config.{PteConfig, MemAttributes, normal, per_cpu, device, uncached}
use sparreal_os.Paging.Meta.{TableMeta}

-- The registers `PTE` and `PTE_DIR`: each field with its offset. Bit 6 is `G` in a page entry and
-- `H` in a directory entry.
unfoldable pub pack :
    (valid dirty plv cache bit_six present write phys_addr no_read no_exec : ℕ) → ℕ
pack valid dirty plv cache bit_six present write phys_addr no_read no_exec =
    valid
    + dirty * 2 ^ 1
    + plv * 2 ^ 2
    + cache * 2 ^ 4
    + bit_six * 2 ^ 6
    + present * 2 ^ 7
    + write * 2 ^ 8
    + phys_addr * 2 ^ 12
    + no_read * 2 ^ 61
    + no_exec * 2 ^ 62

-- `PLV::PLV3` is user mode.
unfoldable pub plv : Bool → ℕ
plv true = 3
plv false = 0

-- `CACHE::SUC`, `CACHE::CC` and `CACHE::WUC`.
unfoldable pub cache : MemAttributes → ℕ
cache device = 0
cache normal = 1
cache per_cpu = 1
cache uncached = 2

unfoldable pub mem_attr : ℕ → MemAttributes
mem_attr cache =
    if cache == 0
    then device
    else if cache == 1
    then normal
    else if cache == 2
    then uncached
    else normal

abbrev pub phys_addr : PteConfig → ℕ
phys_addr c = c.paddr / 2 ^ 12 % 2 ^ 40

unfoldable pub from_huge : PteConfig → ℕ
from_huge c =
    pack (bit c.valid) (bit c.writable) (plv c.lower) (cache c.mem_attr) 1 (bit c.valid)
      (bit c.writable) (bit_or (phys_addr c) (bit c.global)) (bit (not c.read))
      (bit (not c.executable))

unfoldable pub from_dir : PteConfig → ℕ
from_dir c = pack 0 0 0 0 0 0 0 (phys_addr c) 0 0

unfoldable pub from_base : PteConfig → ℕ
from_base c =
    pack (bit c.valid) (bit c.writable) (plv c.lower) (cache c.mem_attr) (bit c.global)
      (bit c.valid) (bit c.writable) (phys_addr c) (bit (not c.read)) (bit (not c.executable))

unfoldable pub from_config : PteConfig → ℕ
from_config c = if c.is_dir then (if c.huge then from_huge c else from_dir c) else from_base c

unfoldable pub to_config : ℕ → Bool → PteConfig
to_config pte is_dir =
    let valid = is_set pte 0 in
    let address = field pte 12 40 * 2 ^ 12 in
    let huge = if is_dir then is_set pte 6 else false in
    record {
      paddr = if huge then address / 2 ^ 13 * 2 ^ 13 else address;
      valid = valid;
      read = valid;
      writable = is_set pte 8;
      executable = not (is_set pte 62);
      lower = field pte 2 2 == 3;
      dirty = is_set pte 1;
      global = if huge then is_set pte 12 else is_set pte 6;
      is_dir = is_dir;
      huge = huge;
      mem_attr = mem_attr (field pte 4 2);
    }

unfoldable pub valid : ℕ → Bool
valid pte = is_set pte 0

-- `Generic`: four levels of nine bits, pages of 4 KiB.
abbrev pub Generic : TableMeta
Generic = record {
  Pte = ℕ;
  page_shift = 12;
  level_bits = 9 ∷ 9 ∷ 9 ∷ 9 ∷ [];
  max_block_level = 1;
  entries = 512;
  zero_entry = 0;
  from_config = from_config;
  to_config = to_config;
  valid = valid;
}

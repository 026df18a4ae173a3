-- ===== src/Aarch64.antt =====
-- crates/someboot/src/arch/aarch64/paging/pte.rs: the 64-bit page table entry of aarch64, without
-- the feature `hv`. The fields of the register are disjoint, so a sum of field values, which the
-- register library forms by `|`, is the sum of the numbers.
pub mod Fields
pub mod Laws
mod Tests
use sparreal_os.Prelude.{
  ℕ, ◌+◌, ◌*◌, ◌/◌, ◌%◌, ◌^◌, Bool, true, false, not, ◌||◌, ◌==◌, if◌then◌else◌, [], ◌∷◌,
}
use sparreal_os.Prelude.Fields.{field, is_set, bit}
use sparreal_os.Paging.Config.{PteConfig, MemAttributes, normal, per_cpu, device, uncached}
use sparreal_os.Paging.Meta.{TableMeta}

-- The register `PTE`: each field with its offset.
unfoldable pub pack : (valid non_block mair ap_el0 ap_ro shareable af ng phys_addr pxn uxn : ℕ) → ℕ
pack valid non_block mair ap_el0 ap_ro shareable af ng phys_addr pxn uxn =
    valid
    + non_block * 2 ^ 1
    + mair * 2 ^ 2
    + ap_el0 * 2 ^ 6
    + ap_ro * 2 ^ 7
    + shareable * 2 ^ 8
    + af * 2 ^ 10
    + ng * 2 ^ 11
    + phys_addr * 2 ^ 12
    + pxn * 2 ^ 53
    + uxn * 2 ^ 54

unfoldable pub mair : MemAttributes → ℕ
mair device = 0
mair normal = 1
mair per_cpu = 1
mair uncached = 2

-- `SHAREABLE::NON` is 0, `SHAREABLE::OUTER` is 2.
unfoldable pub shareable : MemAttributes → ℕ
shareable device = 2
shareable normal = 2
shareable per_cpu = 0
shareable uncached = 2

unfoldable pub mem_attr : ℕ → ℕ → MemAttributes
mem_attr mair share =
    if not (share == 2)
    then per_cpu
    else if mair == 0
    then device
    else if mair == 1
    then normal
    else if mair == 2
    then uncached
    else normal

-- Which entries forbid execution at EL1 and at EL0.
unfoldable pub pxn : PteConfig → Bool
pxn c = if c.lower then true else not c.executable

unfoldable pub uxn : PteConfig → Bool
uxn c = if c.lower then not c.executable else true

unfoldable pub from_config : PteConfig → ℕ
from_config c =
    if not c.valid
    then 0
    else pack 1 (bit (not c.huge)) (mair c.mem_attr) (bit c.lower) (bit (not c.writable))
        (shareable c.mem_attr) (bit (c.read || c.dirty)) (bit (not c.global))
        (c.paddr / 2 ^ 12 % 2 ^ 36) (bit (pxn c)) (bit (uxn c))

unfoldable pub to_config : ℕ → Bool → PteConfig
to_config pte is_dir =
    let lower = is_set pte 6 in
    record {
      paddr = field pte 12 36 * 2 ^ 12;
      valid = is_set pte 0;
      read = is_set pte 10;
      writable = is_set pte 7;
      executable = if lower then not (is_set pte 54) else not (is_set pte 53);
      lower = lower;
      dirty = is_set pte 10;
      global = not (is_set pte 11);
      is_dir = is_dir;
      huge = not (is_set pte 1);
      mem_attr = mem_attr (field pte 2 3) (field pte 8 2);
    }

unfoldable pub valid : ℕ → Bool
valid pte = is_set pte 0

-- `Generic`: four levels of nine bits, pages of 4 KiB.
abbrev pub Generic : TableMeta
Generic = record {
  Pte = ℕ;
  page_shift = 12;
  level_bits = 9 ∷ 9 ∷ 9 ∷ 9 ∷ [];
  max_block_level = 3;
  entries = 512;
  zero_entry = 0;
  from_config = from_config;
  to_config = to_config;
  valid = valid;
}

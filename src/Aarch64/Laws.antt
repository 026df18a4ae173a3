-- ===== src/Aarch64/Laws.antt =====
-- crates/someboot/src/arch/aarch64/paging/pte.rs: the round trip of an entry, and the entries as an
-- instance of the interface of page tables.
use sparreal_os.Prelude.{
  ℕ, zero, suc, ◌*◌, ◌/◌, ◌%◌, ◌^◌, ◌≤◌, ◌<◌, ◌≡◌, refl, ap, sym, ◌∙◌, Bool, true, false, not, ◌||◌,
  if◌then◌else◌, arith,
}
use sparreal_os.Prelude.Fields.{field, is_set, bit, bit-lt, is_set-bit}
use sparreal_os.Paging.Config.{PteConfig, MemAttributes, normal, per_cpu, device, uncached}
use sparreal_os.Paging.Geometry.{GeometryLaws, level_index_bits, valid_bits, index_bits, sum}
use sparreal_os.Paging.Meta.{EntryLaws, Fits}
use sparreal_os.Aarch64.{
  pack, mair, shareable, mem_attr, pxn, uxn, from_config, to_config, valid, Generic,
}
use sparreal_os.Aarch64.Fields.{fields}

not-not : (b : Bool) → not (not b) ≡ b
not-not true = refl
not-not false = refl

attr-bounds : (a : MemAttributes) → (mair a < 8) × (shareable a < 4)
unfolding mair shareable
attr-bounds normal = omega arith
attr-bounds per_cpu = omega arith
attr-bounds device = omega arith
attr-bounds uncached = omega arith

mem_attr_lem : (a : MemAttributes) → mem_attr (mair a) (shareable a) ≡ a
unfolding mem_attr mair shareable
mem_attr_lem normal = refl
mem_attr_lem per_cpu = refl
mem_attr_lem device = refl
mem_attr_lem uncached = refl

executable_lem : (c : PteConfig) → (if c.lower then not (uxn c) else not (pxn c)) ≡ c.executable
unfolding uxn pxn
executable_lem c = ground arith

-- What is read back of a valid configuration.
abbrev pub read_back : PteConfig → Bool → PteConfig
read_back c is_dir = record c {
  paddr = c.paddr / 2 ^ 12 % 2 ^ 36 * 2 ^ 12;
  read = c.read || c.dirty;
  dirty = c.read || c.dirty;
  writable = not c.writable;
  is_dir = is_dir;
}

from_config-pack :
    (c : PteConfig)
    → c.valid ≡ true
    → from_config c
      ≡ pack 1
          (bit (not c.huge))
          (mair c.mem_attr)
          (bit c.lower)
          (bit (not c.writable))
          (shareable c.mem_attr)
          (bit (c.read || c.dirty))
          (bit (not c.global))
          (c.paddr / 2 ^ 12 % 2 ^ 36)
          (bit (pxn c))
          (bit (uxn c))
unfolding from_config
from_config-pack c v = rw v

-- A valid configuration that is written to an entry is read back with the page address cut to the
-- 36 bits above the page, with `writable` turned round, with `read` and `dirty` both set where one
-- of them was, with the `is_dir` of the reader, and with everything else as it was.
pub to_config-from_config :
    (c : PteConfig) (is_dir : Bool)
    → c.valid ≡ true
    → to_config (from_config c) is_dir ≡ read_back c is_dir
unfolding to_config field
to_config-from_config c is_dir v =
    let (ma, sa) = attr-bounds c.mem_attr in
    let (f₁, f₂, f₃, f₄, f₅, f₆, f₇, f₈, f₉, f₁₀, f₁₁) =
      fields 1 (bit (not c.huge)) (mair c.mem_attr) (bit c.lower) (bit (not c.writable))
        (shareable c.mem_attr) (bit (c.read || c.dirty)) (bit (not c.global))
        (c.paddr / 2 ^ 12 % 2 ^ 36) (bit (pxn c)) (bit (uxn c)) (omega arith) (bit-lt _) ma
        (bit-lt _) (bit-lt _) sa (bit-lt _) (bit-lt _) (omega arith) (bit-lt _) (bit-lt _) in
    rw
      (
        from_config-pack c v,
        is_set-bit _ 0 true f₁,
        is_set-bit _ 1 _ f₂,
        f₃,
        is_set-bit _ 6 _ f₄,
        is_set-bit _ 7 _ f₅,
        f₆,
        is_set-bit _ 10 _ f₇,
        is_set-bit _ 11 _ f₈,
        f₉,
        is_set-bit _ 53 _ f₁₀,
        is_set-bit _ 54 _ f₁₁,
        not-not c.huge,
        not-not c.global,
        mem_attr_lem c.mem_attr,
        executable_lem c,
      )
      (ap (λ b. record (read_back c is_dir) { valid = b }) (sym v))

-- A page address below 2 ^ 48 fills the address field exactly.
pub phys_addr_lem : (p : ℕ) → Fits Generic (2 ^ 48) p → p / 2 ^ 12 % 2 ^ 36 * 2 ^ 12 ≡ p
phys_addr_lem p (aligned, small) = omega arith

pub invalid_lem :
    (c : PteConfig) (is_dir : Bool)
    → c.valid ≡ false
    → (to_config (from_config c) is_dir).valid ≡ false
unfolding to_config from_config is_set
invalid_lem c is_dir v = rw v

pub zero_lem : (is_dir : Bool) → (to_config 0 is_dir).valid ≡ false
unfolding to_config is_set
zero_lem is_dir = refl

pub valid_lem : (pte : ℕ) (is_dir : Bool) → valid pte ≡ (to_config pte is_dir).valid
unfolding valid to_config
valid_lem pte is_dir = refl

-- The entries of aarch64 keep what page table code relies on.
abbrev pub Generic-EntryLaws : EntryLaws Generic
Generic-EntryLaws = record {
  phys_limit = 2 ^ 48;
  valid_lem = valid_lem;
  zero_entry_lem = zero_lem;
  from_invalid = invalid_lem;
  from_valid = λ c d v. ap (λ r. r.valid) (to_config-from_config c d v) ∙ v;
  from_huge = λ c v dir. ap (λ r. r.huge) (to_config-from_config c c.is_dir v);
  from_paddr = λ c v fits.
      ap (λ r. r.paddr) (to_config-from_config c c.is_dir v) ∙ phys_addr_lem c.paddr fits;
}

nine_bits : (l : ℕ) → 0 < l → l ≤ 4 → level_index_bits Generic l ≡ 9
nine_bits zero pos h = absurd (omega arith)
nine_bits (suc zero) pos h = refl
nine_bits (suc (suc zero)) pos h = refl
nine_bits (suc (suc (suc zero))) pos h = refl
nine_bits (suc (suc (suc (suc zero)))) pos h = refl
nine_bits (suc (suc (suc (suc (suc l))))) pos h = absurd (omega arith)

pub Generic-GeometryLaws : GeometryLaws Generic
unfolding valid_bits index_bits sum
Generic-GeometryLaws = record {
  width = omega arith;
  nonempty = omega arith;
  index_pos = λ l pos h. rw (nine_bits l pos h) (omega arith);
  indexed = λ l pos h. rw (nine_bits l pos h) (omega arith);
}

-- ===== src/Loongarch/Laws.antt =====
-- crates/someboot/src/arch/loongarch64/pte.rs: what is read back of an entry, and what becomes of an
-- entry that points at a table.
use sparreal_os.Prelude.{
  ℕ, zero, suc, ltb, lt→ltb, ◌+◌, ◌*◌, ◌/◌, ◌%◌, ◌^◌, ◌≤◌, ◌<◌, ◌≡◌, refl, ap, ◌∙◌, Bool, true,
  false, not, ◌==◌, ◌||◌, if◌then◌else◌, max, bit_or, arith,
}
use sparreal_os.Prelude.Bits.{bit_or_step, bit_or-zero}
use sparreal_os.Prelude.Fields.{field, bit, bit-lt, is_set-bit}
use sparreal_os.Paging.Config.{
  PteConfig, not_mapped, MemAttributes, normal, per_cpu, device, uncached,
}
use sparreal_os.Prelude.Outcome.{err}
use sparreal_os.Paging.Geometry.{GeometryLaws, level_index_bits, valid_bits, index_bits, sum}
use sparreal_os.Paging.Geometry.Slots.{index}
use sparreal_os.Paging.Translate.{translate}
use sparreal_os.Paging.Translate.Answers.{translate-none}
use sparreal_os.Paging.Meta.{FrameAllocator, Machine}
use sparreal_os.Paging.Translate.Lookup.{vacant, kind, lookup_vacant}
use sparreal_os.Loongarch.{
  pack, plv, cache, mem_attr, phys_addr, from_huge, from_dir, from_base, from_config, to_config,
  Generic,
}

module _ (valid dirty plv cache bit_six present write page no_read no_exec : ℕ) (h₁ : valid < 2)
    (h₂ : dirty < 2) (h₃ : plv < 4) (h₄ : cache < 4) (h₅ : bit_six < 2) (h₆ : present < 2)
    (h₇ : write < 2) (h₈ : page < 2 ^ 40) (h₉ : no_read < 2) (h₁₀ : no_exec < 2) where
  abbrev packed : ℕ
  packed = pack valid dirty plv cache bit_six present write page no_read no_exec

  fields :
      (packed / 2 ^ 0 % 2 ≡ valid)
      × (packed / 2 ^ 1 % 2 ≡ dirty)
      × (packed / 2 ^ 2 % 2 ^ 2 ≡ plv)
      × (packed / 2 ^ 4 % 2 ^ 2 ≡ cache)
      × (packed / 2 ^ 6 % 2 ≡ bit_six)
      × (packed / 2 ^ 8 % 2 ≡ write)
      × (packed / 2 ^ 12 % 2 ^ 40 ≡ page)
      × (packed / 2 ^ 12 % 2 ≡ page % 2)
      × (packed / 2 ^ 62 % 2 ≡ no_exec)
  unfolding pack
  fields = omega arith

plv-lt : (b : Bool) → plv b < 4
unfolding plv
plv-lt true = omega arith
plv-lt false = omega arith

plv_user : (b : Bool) → (plv b == 3) ≡ b
unfolding plv
plv_user true = refl
plv_user false = refl

cache-lt : (a : MemAttributes) → cache a < 4
unfolding cache
cache-lt normal = omega arith
cache-lt per_cpu = omega arith
cache-lt device = omega arith
cache-lt uncached = omega arith

-- The attributes of one processor are read back as those of normal memory.
abbrev pub shared_attr : MemAttributes → MemAttributes
shared_attr normal = normal
shared_attr per_cpu = normal
shared_attr device = device
shared_attr uncached = uncached

mem_attr-cache : (a : MemAttributes) → mem_attr (cache a) ≡ shared_attr a
unfolding mem_attr cache
mem_attr-cache normal = refl
mem_attr-cache per_cpu = refl
mem_attr-cache device = refl
mem_attr-cache uncached = refl

not-not : (b : Bool) → not (not b) ≡ b
not-not true = refl
not-not false = refl

-- The bit `G` is put over the lowest bit of the address.
bit_or-bit : (a : ℕ) (b : Bool) → bit_or a (bit b) ≡ a / 2 * 2 + max (a % 2) (bit b)
bit_or-bit a true = omega (arith, bit_or_step a 1, bit_or-zero (a / 2))
bit_or-bit a false = omega (arith, bit_or_step a 0, bit_or-zero (a / 2))

-- What is read back of a page entry, of a block and of an entry that points at a table.
abbrev pub read_back_page : PteConfig → PteConfig
read_back_page c = record c {
  paddr = phys_addr c * 2 ^ 12;
  read = c.valid;
  dirty = c.writable;
  is_dir = false;
  huge = false;
  mem_attr = shared_attr c.mem_attr;
}

abbrev pub read_back_block : PteConfig → PteConfig
read_back_block c = record c {
  paddr = phys_addr c / 2 * 2 ^ 13;
  read = c.valid;
  dirty = c.writable;
  global = phys_addr c % 2 == 1 || c.global;
  is_dir = true;
  huge = true;
  mem_attr = shared_attr c.mem_attr;
}

abbrev pub read_back_table : PteConfig → PteConfig
read_back_table c = record {
  paddr = phys_addr c * 2 ^ 12;
  valid = false;
  read = false;
  writable = false;
  executable = true;
  lower = false;
  dirty = false;
  global = false;
  is_dir = true;
  huge = false;
  mem_attr = device;
}

abbrev pub read_back : PteConfig → PteConfig
read_back c =
    if c.is_dir then (if c.huge then read_back_block c else read_back_table c) else read_back_page c

page_round_trip : (c : PteConfig) → to_config (from_base c) false ≡ read_back_page c
unfolding to_config from_base field
page_round_trip c =
    let (f₁, f₂, f₃, f₄, f₅, f₆, f₇, f₈, f₉) =
      fields (bit c.valid) (bit c.writable) (plv c.lower) (cache c.mem_attr) (bit c.global)
        (bit c.valid) (bit c.writable) (phys_addr c) (bit (not c.read)) (bit (not c.executable))
        (bit-lt _) (bit-lt _) (plv-lt _) (cache-lt _) (bit-lt _) (bit-lt _) (bit-lt _) (omega arith)
        (bit-lt _) (bit-lt _) in
    rw
      (
        is_set-bit _ 0 _ f₁,
        is_set-bit _ 1 _ f₂,
        f₃,
        f₄,
        is_set-bit _ 6 _ f₅,
        is_set-bit _ 8 _ f₆,
        f₇,
        is_set-bit _ 62 _ f₉,
        plv_user c.lower,
        not-not c.executable,
        mem_attr-cache c.mem_attr,
      )
      refl

global-bit : (a : ℕ) (b : Bool) → bit_or a (bit b) % 2 ≡ bit (a % 2 == 1 || b)
global-bit a true = ground (arith, bit_or-bit a true)
global-bit a false = ground (arith, bit_or-bit a false)

block_address : (a : ℕ) (b : Bool) → bit_or a (bit b) * 2 ^ 12 / 2 ^ 13 * 2 ^ 13 ≡ a / 2 * 2 ^ 13
block_address a true = omega (arith, bit_or-bit a true)
block_address a false = omega (arith, bit_or-bit a false)

block_small : (a : ℕ) (b : Bool) → a < 2 ^ 40 → bit_or a (bit b) < 2 ^ 40
block_small a true h = omega (arith, bit_or-bit a true)
block_small a false h = omega (arith, bit_or-bit a false)

block_round_trip : (c : PteConfig) → to_config (from_huge c) true ≡ read_back_block c
unfolding to_config from_huge field
block_round_trip c =
    let (f₁, f₂, f₃, f₄, f₅, f₆, f₇, f₈, f₉) =
      fields (bit c.valid) (bit c.writable) (plv c.lower) (cache c.mem_attr) 1 (bit c.valid)
        (bit c.writable) (bit_or (phys_addr c) (bit c.global)) (bit (not c.read))
        (bit (not c.executable)) (bit-lt _) (bit-lt _) (plv-lt _) (cache-lt _) (omega arith)
        (bit-lt _) (bit-lt _) (block_small (phys_addr c) c.global (omega arith)) (bit-lt _)
        (bit-lt _) in
    rw
      (
        is_set-bit _ 0 _ f₁,
        is_set-bit _ 1 _ f₂,
        f₃,
        f₄,
        is_set-bit _ 6 true f₅,
        is_set-bit _ 8 _ f₆,
        f₇,
        is_set-bit _ 12 _ (f₈ ∙ global-bit (phys_addr c) c.global),
        is_set-bit _ 62 _ f₉,
        plv_user c.lower,
        not-not c.executable,
        mem_attr-cache c.mem_attr,
        block_address (phys_addr c) c.global,
      )
      refl

table_round_trip : (c : PteConfig) → to_config (from_dir c) true ≡ read_back_table c
unfolding to_config from_dir field mem_attr
table_round_trip c =
    let (f₁, f₂, f₃, f₄, f₅, f₆, f₇, f₈, f₉) =
      fields 0 0 0 0 0 0 0 (phys_addr c) 0 0 (omega arith) (omega arith) (omega arith) (omega arith)
        (omega arith) (omega arith) (omega arith) (omega arith) (omega arith) (omega arith) in
    rw
      (
        is_set-bit _ 0 false f₁,
        is_set-bit _ 1 false f₂,
        f₃,
        f₄,
        is_set-bit _ 6 false f₅,
        is_set-bit _ 8 false f₆,
        f₇,
        is_set-bit _ 62 false f₉,
      )
      refl

by_level :
    (c : PteConfig) (is_dir huge : Bool)
    → to_config (if is_dir then (if huge then from_huge c else from_dir c) else from_base c) is_dir
      ≡ (if is_dir
          then (if huge then read_back_block c else read_back_table c)
          else read_back_page c)
by_level c true true = block_round_trip c
by_level c true false = table_round_trip c
by_level c false huge = page_round_trip c

-- What an entry that was written for a configuration gives its reader, where both agree whether it
-- is a directory entry. A page keeps its address, cut to 40 bits above the page, and its rights; a
-- block loses the lowest bit of its address, which counts as `global`; both are readable where they
-- are valid, and dirty where they are writable. An entry that points at a table keeps its address
-- and nothing else: it is read back as not valid.
pub loongarch_round_trip : (c : PteConfig) → to_config (from_config c) c.is_dir ≡ read_back c
unfolding from_config
loongarch_round_trip c = by_level c c.is_dir c.huge

table_invalid :
    (c : PteConfig)
    → c.is_dir ≡ true
    → c.huge ≡ false
    → (to_config (from_config c) true).valid ≡ false
unfolding from_config from_dir
table_invalid c dir table = rw (dir, table) (ap (λ r. r.valid) (table_round_trip c))

kind_table : (pte l : ℕ) → 0 < l → (to_config pte true).valid ≡ false → kind Generic l pte ≡ vacant
unfolding kind
kind_table pte l pos h = let dir : ltb 1 (suc l) ≡ true = lt→ltb _ _ (omega arith) in rw (dir, h)

nine_bits : (l : ℕ) → 0 < l → l ≤ 4 → level_index_bits Generic l ≡ 9
nine_bits zero pos h = absurd (omega arith)
nine_bits (suc zero) pos h = refl
nine_bits (suc (suc zero)) pos h = refl
nine_bits (suc (suc (suc zero))) pos h = refl
nine_bits (suc (suc (suc (suc zero)))) pos h = refl
nine_bits (suc (suc (suc (suc (suc l))))) pos h = absurd (omega arith)

pub Generic-GeometryLaws : GeometryLaws Generic
unfolding valid_bits index_bits sum
Generic-GeometryLaws = record {
  width = omega arith;
  nonempty = omega arith;
  index_pos = λ l pos h. rw (nine_bits l pos h) (omega arith);
  indexed = λ l pos h. rw (nine_bits l pos h) (omega arith);
}

-- On loongarch64, where the entry of the root for an address was written for a table below, with
-- any rights, `translate` fails with `NotMapped` and changes nothing, whatever the tables hold.
pub translate-from_dir :
    (A : FrameAllocator) (m : Machine Generic A) (root v : ℕ) (c : PteConfig)
    → c.is_dir ≡ true
    → c.huge ≡ false
    → m.table root (index Generic 4 v) ≡ from_config c
    → translate Generic A root v m ≡ err not_mapped m
translate-from_dir A m root v c dir table written =
    translate-none Generic A Generic-GeometryLaws m root v (
      lookup_vacant Generic A m 3 root v (
        kind_table _ 3 (omega arith)
          (ap (λ e. (to_config e true).valid) written ∙ table_invalid c dir table)))

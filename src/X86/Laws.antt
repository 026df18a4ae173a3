-- ===== src/X86/Laws.antt =====
-- crates/someboot/src/arch/x86_64/paging.rs: the round trip of an entry, and the entries as an
-- instance of the interface of page tables.
use sparreal_os.Prelude.{
  ℕ, zero, suc, ◌*◌, ◌/◌, ◌%◌, ◌^◌, ◌≤◌, ◌<◌, ◌≡◌, refl, ap, ◌∙◌, Bool, true, false, not, ◌&&◌,
  ◌||◌, if◌then◌else◌, arith,
}
use sparreal_os.Prelude.Fields.{field, is_set, bit, bit-lt, is_set-bit}
use sparreal_os.Paging.Config.{PteConfig, MemAttributes, normal, device}
use sparreal_os.Paging.Geometry.{GeometryLaws, level_index_bits, valid_bits, index_bits, sum}
use sparreal_os.Paging.Meta.{EntryLaws, Fits}
use sparreal_os.X86.{pack, is_uncached, is_leaf, from_config, to_config, valid, Generic}

module _
    (present writable user write_through cache_disable accessed dirty huge global page
      no_execute : ℕ)
    (h₁ : present < 2) (h₂ : writable < 2) (h₃ : user < 2) (h₄ : write_through < 2)
    (h₅ : cache_disable < 2) (h₆ : accessed < 2) (h₇ : dirty < 2) (h₈ : huge < 2) (h₉ : global < 2)
    (h₁₀ : page < 2 ^ 40) (h₁₁ : no_execute < 2) where
  abbrev packed : ℕ
  packed =
      pack present writable user write_through cache_disable accessed dirty huge global page
        no_execute

  fields :
      (packed / 2 ^ 0 % 2 ≡ present)
      × (packed / 2 ^ 1 % 2 ≡ writable)
      × (packed / 2 ^ 2 % 2 ≡ user)
      × (packed / 2 ^ 3 % 2 ≡ write_through)
      × (packed / 2 ^ 4 % 2 ≡ cache_disable)
      × (packed / 2 ^ 6 % 2 ≡ dirty)
      × (packed / 2 ^ 7 % 2 ≡ huge)
      × (packed / 2 ^ 8 % 2 ≡ global)
      × (packed / 2 ^ 12 % 2 ^ 40 ≡ page)
      × (packed / 2 ^ 63 % 2 ≡ no_execute)
  unfolding pack
  fields = omega arith

attr-cases :
    (a : MemAttributes)
    → (if is_uncached a || is_uncached a then device else normal)
      ≡ (if is_uncached a then device else normal)
attr-cases a = ground arith

-- What is read back of a configuration.
abbrev pub read_back : PteConfig → Bool → PteConfig
read_back c is_dir = record c {
  paddr = c.paddr / 2 ^ 12 % 2 ^ 40 * 2 ^ 12;
  read = c.valid;
  executable = not (is_leaf c && not c.executable);
  is_dir = is_dir;
  huge = is_dir && (c.is_dir && c.huge);
  mem_attr = if is_uncached c.mem_attr then device else normal;
}

-- A configuration that is written to an entry is read back with the address cut to the 40 bits
-- above the page, with `read` as `valid`, as executable where the entry points at a table, with the
-- `is_dir` of the reader, as a block where writer and reader take it for a directory entry, with
-- two of the four memory attributes, and with everything else as it was.
pub x86_round_trip :
    (c : PteConfig) (is_dir : Bool) → to_config (from_config c) is_dir ≡ read_back c is_dir
unfolding to_config from_config field
x86_round_trip c is_dir =
    let attr = is_uncached c.mem_attr in
    let (f₁, f₂, f₃, f₄, f₅, f₆, f₇, f₈, f₉, f₁₀) =
      fields (bit c.valid) (bit c.writable) (bit c.lower) (bit attr) (bit attr) (bit c.valid)
        (bit c.dirty) (bit (c.is_dir && c.huge)) (bit c.global) (c.paddr / 2 ^ 12 % 2 ^ 40)
        (bit (is_leaf c && not c.executable)) (bit-lt _) (bit-lt _) (bit-lt _) (bit-lt _) (bit-lt _)
        (bit-lt _) (bit-lt _) (bit-lt _) (bit-lt _) (omega arith) (bit-lt _) in
    rw
      (
        is_set-bit _ 0 _ f₁,
        is_set-bit _ 1 _ f₂,
        is_set-bit _ 2 _ f₃,
        is_set-bit _ 3 _ f₄,
        is_set-bit _ 4 _ f₅,
        is_set-bit _ 6 _ f₆,
        is_set-bit _ 7 _ f₇,
        is_set-bit _ 8 _ f₈,
        f₉,
        is_set-bit _ 63 _ f₁₀,
        attr-cases c.mem_attr,
      )
      refl

-- A page address below 2 ^ 52 fills the address field exactly.
pub phys_addr_lem : (p : ℕ) → Fits Generic (2 ^ 52) p → p / 2 ^ 12 % 2 ^ 40 * 2 ^ 12 ≡ p
phys_addr_lem p (aligned, small) = omega arith

pub block_lem :
    (huge is_dir : Bool) → (huge ≡ true → is_dir ≡ true) → (is_dir && (is_dir && huge)) ≡ huge
block_lem true is_dir dir = rw (dir refl)
block_lem false is_dir dir = ground arith

pub zero_lem : (is_dir : Bool) → (to_config 0 is_dir).valid ≡ false
unfolding to_config is_set
zero_lem is_dir = refl

pub valid_lem : (pte : ℕ) (is_dir : Bool) → valid pte ≡ (to_config pte is_dir).valid
unfolding valid to_config
valid_lem pte is_dir = refl

-- The entries of x86_64 keep what page table code relies on.
abbrev pub Generic-EntryLaws : EntryLaws Generic
Generic-EntryLaws = record {
  phys_limit = 2 ^ 52;
  valid_lem = valid_lem;
  zero_entry_lem = zero_lem;
  from_invalid = λ c d v. ap (λ r. r.valid) (x86_round_trip c d) ∙ v;
  from_valid = λ c d v. ap (λ r. r.valid) (x86_round_trip c d) ∙ v;
  from_huge =
      λ c v dir. ap (λ r. r.huge) (x86_round_trip c c.is_dir) ∙ block_lem c.huge c.is_dir dir;
  from_paddr =
      λ c v fits. ap (λ r. r.paddr) (x86_round_trip c c.is_dir) ∙ phys_addr_lem c.paddr fits;
}

nine_bits : (l : ℕ) → 0 < l → l ≤ 4 → level_index_bits Generic l ≡ 9
nine_bits zero pos h = absurd (omega arith)
nine_bits (suc zero) pos h = refl
nine_bits (suc (suc zero)) pos h = refl
nine_bits (suc (suc (suc zero))) pos h = refl
nine_bits (suc (suc (suc (suc zero)))) pos h = refl
nine_bits (suc (suc (suc (suc (suc l))))) pos h = absurd (omega arith)

pub Generic-GeometryLaws : GeometryLaws Generic
unfolding valid_bits index_bits sum
Generic-GeometryLaws = record {
  width = omega arith;
  nonempty = omega arith;
  index_pos = λ l pos h. rw (nine_bits l pos h) (omega arith);
  indexed = λ l pos h. rw (nine_bits l pos h) (omega arith);
}

-- ===== src/Paging/Samples.antt =====
-- A small page table of two levels, whose entries are their decoded forms, for the tests.
use sparreal_os.Prelude.{
  ℕ, ◌<◌, ◌≡◌, refl, Bool, true, not, ◌&&◌, ◌||◌, ◌==◌, if◌then◌else◌, none, inl, inr, ◌⊎◌, ◌≤◌,
  arith, [], ◌∷◌, ◌^◌, sym, subst, ◌∙◌, ◌+◌, ◌*◌, suc, some, Bool-cases,
}
use sparreal_os.Paging.Config.{PteConfig, PhysAddr, invalid_config}
use sparreal_os.Paging.Geometry.{GeometryLaws, level_index_bits, sum, valid_bits, index_bits}
use sparreal_os.Paging.Map.Tags.{Tags, Consistent}
use sparreal_os.Paging.Map.Writes.{tag_eq}
use sparreal_os.Paging.Meta.{TableMeta, EntryLaws, FrameAllocator, FrameLaws, Machine}
use sparreal_os.Paging.Translate.Lookup.{kind, pointer}
use sparreal_os.Paging.Unmap.Slots.{kind_zero_level}
use sparreal_os.Paging.Walk.Entries.{WalkLaws}

abbrev pub Small : TableMeta
Small = record {
  Pte = PteConfig;
  page_shift = 12;
  level_bits = 9 ∷ 9 ∷ [];
  max_block_level = 2;
  entries = 512;
  zero_entry = invalid_config;
  from_config = λ c. c;
  to_config = λ c dir. c;
  valid = λ c. c.valid;
}

abbrev pub Small-EntryLaws : EntryLaws Small
Small-EntryLaws = record {
  phys_limit = 2 ^ 48;
  valid_lem = λ e dir. refl;
  zero_entry_lem = λ dir. refl;
  from_invalid = λ c dir h. h;
  from_valid = λ c dir h. h;
  from_huge = λ c h dir. refl;
  from_paddr = λ c h fits. refl;
}

one_or_two : (l : ℕ) → 0 < l → l ≤ 2 → (l ≡ 1) ⊎ (l ≡ 2)
one_or_two l pos h = ground arith

pub nine_bits : (l : ℕ) → 0 < l → l ≤ 2 → level_index_bits Small l ≡ 9
nine_bits l pos h = elim (one_or_two l pos h) [ inl e ↦ rw e refl | inr e ↦ rw e refl ]

pub Small-GeometryLaws : GeometryLaws Small
unfolding valid_bits index_bits sum
Small-GeometryLaws = record {
  width = omega arith;
  nonempty = omega arith;
  index_pos = λ l pos h. rw (nine_bits l pos h) (omega arith);
  indexed = λ l pos h. rw (nine_bits l pos h) (omega arith);
}

pub Small-WalkLaws : WalkLaws Small
Small-WalkLaws = record {
  geometry = Small-GeometryLaws;
  full = λ l pos h. rw (nine_bits l pos h) refl;
  shallow = omega arith;
}

-- The frames that are in use.
abbrev pub used_frames : FrameAllocator
used_frames = record {
  State = PhysAddr → Bool;
  alloc_frame = λ used. none;
  dealloc_frame = λ p used q. not (q == p) && used q;
}

abbrev pub used_frames-FrameLaws : FrameLaws Small (2 ^ 48) used_frames
used_frames-FrameLaws = record {
  live = λ used. used;
  alloc_fresh = λ used got. ground arith;
  alloc_live = λ used got q. ground arith;
  alloc_fits = λ used got. ground arith;
  dealloc_live = λ used p q. refl;
}

abbrev pub page_at : PhysAddr → PteConfig
page_at p = record invalid_config { paddr = p; valid = true; read = true }

abbrev pub table_at : PhysAddr → PteConfig
table_at p = record invalid_config { paddr = p; valid = true; is_dir = true }

-- The root at 4096 points at one table at 8192, with two pages, at 8192 and 12288.
abbrev pub two_pages : Machine Small used_frames
two_pages = record {
  table = λ p i.
      if p == 4096 && i == 0
      then table_at 8192
      else if p == 8192 && (i == 2 || i == 3)
      then page_at 0x4000_0000
      else invalid_config;
  frames = λ p. p == 4096 || p == 8192;
  flushed = [];
}

-- Their tags.
abbrev pub two_tags : Tags
two_tags p = if p == 4096 then some (2, 0) else if p == 8192 then some (1, 0) else none

root_entry : kind Small 1 (two_pages.table 4096 0) ≡ pointer 8192
unfolding kind
root_entry = refl

pointer_eq : {p q : PhysAddr} → pointer p ≡ pointer q → q ≡ p
pointer_eq h = ground arith

-- Only the first entry of the root is a pointer.
two_pages_child :
    (p l r i : ℕ) {q : ℕ}
    → two_tags p ≡ some (suc l, r)
    → kind Small l (two_pages.table p i) ≡ pointer q
    → two_tags q ≡ some (l, r * 512 + i)
unfolding kind
two_pages_child p l r i {q} t k = elim (Bool-cases (p == 4096)) [
  | inl root ↦ elim (Bool-cases (i == 0)) [
    | inl first ↦
        let ep : p ≡ 4096 = ground arith in
        let ei : i ≡ 0 = ground arith in
        let at_root : two_tags p ≡ some (2, 0) = rw ep in
        let place = tag_eq (sym at_root ∙ t) in
        let el : l ≡ 1 = omega (arith, place.0) in
        let eq : q ≡ 8192 = pointer_eq (cc (root_entry, k)) in rw (eq, el, ← place.1, ei) refl
    | inr other ↦ ground arith
  ]
  | inr other ↦
      let level : l ≡ 0 = ground arith in
      absurd (
        kind_zero_level Small used_frames two_pages (two_pages.table p i)
          (subst (λ x. kind Small x (two_pages.table p i) ≡ pointer q) level k))
]

two_tags_levels : (p : ℕ) {k r : ℕ} → two_tags p ≡ some (k, r) → (k ≡ 1) ⊎ (k ≡ 2)
two_tags_levels p t = ground arith

pub two_pages-Consistent :
    Consistent Small used_frames used_frames-FrameLaws.live two_pages two_tags
two_pages-Consistent = record {
  child = λ p l r i {q} t h k.
      let known : two_tags p ≡ some (suc l, r) = t in
      let level : (suc l ≡ 1) ⊎ (suc l ≡ 2) = two_tags_levels p known in
      rw
        (nine_bits (suc l) (omega arith) (elim level [ inl e ↦ omega arith | inr e ↦ omega arith ]))
        (two_pages_child p l r i t k);
  owned = λ p t. ground arith;
}

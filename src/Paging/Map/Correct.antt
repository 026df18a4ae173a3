-- ===== src/Paging/Map/Correct.antt =====
-- `PageTableRef::map` against `PageTableRef::translate`.
use sparreal_os.Prelude.{
  ℕ, ◌+◌, ◌-◌, ◌%◌, ◌≤◌, ◌<◌, ◌≡◌, ◌∙◌, ap, inl, inr, some, arith, Bool-cases, ◌||◌, ◌==◌, leb,
}
use sparreal_os.Prelude.Outcome.{ok, Ensures, fails, mono}
use sparreal_os.Paging.Config.{PhysAddr, usize_mod}
use sparreal_os.Paging.Geometry.{GeometryLaws}
use sparreal_os.Paging.Geometry.Shifts.{add-aligned}
use sparreal_os.Paging.Geometry.Slots.{region}
use sparreal_os.Paging.Map.{MapConfig, map_table, validate_map_config, options}
use sparreal_os.Paging.Map.Effect.{Effect, Effect-refl, Maps}
use sparreal_os.Paging.Map.Ranges.{Ready, Done, map_range-Done}
use sparreal_os.Paging.Map.Tags.{Tags, Consistent}
use sparreal_os.Paging.Meta.{
  TableMeta, FrameAllocator, Machine, table_levels, page_size, EntryLaws, FrameLaws,
}
use sparreal_os.Paging.Translate.{translate}
use sparreal_os.Paging.Translate.Answers.{answer, translate-some, answer-translate}

module _ (T : TableMeta) (A : FrameAllocator) (g : GeometryLaws T) (laws : EntryLaws T)
    (fl : FrameLaws T laws.phys_limit A) where
  -- What `map` needs beyond what it checks: a consistent page table whose root covers the range,
  -- whole pages, and physical addresses that fit in an entry.
  pub record Mappable (root : PhysAddr) (c : MapConfig) (m : Machine T A) (tag : Tags)
      : Type 0 where
    pub consistent : Consistent T A fl.live m tag
    pub rooted :
        (w : ℕ)
        → c.vaddr ≤ w
        → w < c.vaddr + c.size
        → tag root ≡ some (table_levels T, region T (table_levels T) w)
    pub whole_pages : c.size % page_size T ≡ 0
    pub fits : c.paddr + c.size ≤ laws.phys_limit

  -- `m'` is a consistent page table, in which every address of the root that is outside the range
  -- translates as in `m`.
  pub record Kept (root : PhysAddr) (c : MapConfig) (m : Machine T A) (tag : Tags)
      (m' : Machine T A) : Type 0 where
    pub tag' : Tags
    pub consistent : Consistent T A fl.live m' tag'
    pub tags : (p : ℕ) {x : ℕ × ℕ} → tag p ≡ some x → tag' p ≡ some x
    pub outside :
        (w : ℕ)
        → ¬ ((c.vaddr ≤ w) × (w < c.vaddr + c.size))
        → tag root ≡ some (table_levels T, region T (table_levels T) w)
        → answer (translate T A root w m') ≡ answer (translate T A root w m)

  -- Besides, every address of the range translates to its place in the physical range.
  pub record MapsRange (root : PhysAddr) (c : MapConfig) (m : Machine T A) (tag : Tags)
      (m' : Machine T A) : Type 0 where
    pub kept : Kept root c m tag m'
    pub inside :
        (w : ℕ)
        → c.vaddr ≤ w
        → w < c.vaddr + c.size
        → (x : T.Pte × ℕ) × (translate T A root w m' ≡ ok (c.paddr + (w - c.vaddr), x.0) m')
          × Maps T c.pte w (c.paddr + (w - c.vaddr)) x

  module _ (root : PhysAddr) (c : MapConfig) (m : Machine T A) (tag : Tags)
      (can : Mappable root c m tag) where
    Effect-Kept :
        {m' : Machine T A} {tag' : Tags}
        → Effect T A fl.live (table_levels T) c.vaddr (c.vaddr + c.size) m m' tag tag'
        → Kept root c m tag m'
    Effect-Kept {m'} {tag'} effect = record {
      tag' = tag';
      consistent = effect.consistent;
      tags = effect.tags;
      outside = λ w out known.
          answer-translate T A g m m' root w
            (effect.others w out (table_levels T) root (omega arith) known);
    }

    unchanged : Kept root c m tag m
    unchanged =
        Effect-Kept
          (Effect-refl T A fl.live (table_levels T) c.vaddr (c.vaddr + c.size) can.consistent)

    Done-MapsRange :
        {m' : Machine T A}
        → Done T A
            (options T A c)
            g
            laws
            fl
            (table_levels T)
            root
            c.vaddr
            c.paddr
            (c.vaddr + c.size)
            m
            tag
            m'
        → MapsRange root c m tag m'
    Done-MapsRange {m'} done = record {
      kept = Effect-Kept done.effect;
      inside = λ w lo hi.
          let (x, found, maps) = done.mapped w lo hi in
          (x, translate-some T A g m' root w found ∙ ap (λ p. ok (p, x.0) m') maps.phys, maps);
    }

    ready :
        c.vaddr % page_size T ≡ 0
        → c.paddr % page_size T ≡ 0
        → c.vaddr + c.size < usize_mod
        → c.paddr + c.size < usize_mod
        → Ready T A
            (options T A c)
            g
            laws
            fl
            (table_levels T)
            root
            c.vaddr
            c.paddr
            (c.vaddr + c.size)
            m
            tag
    ready va pa small small' = record {
      consistent = can.consistent;
      pos = g.nonempty;
      deep = omega arith;
      tagged = can.rooted;
      small = small;
      v_aligned = va;
      pa_aligned = pa;
      e_aligned = add-aligned c.vaddr c.size (page_size T) va can.whole_pages;
      phys_small = omega arith;
      phys_fits = omega (arith, can.fits);
    }

    -- On a consistent page table whose root covers the range, for whole pages and physical addresses
    -- that fit an entry, `map` always ends and never panics. If it returns, every address of the
    -- range translates to its place in the physical range with the attributes asked for. Whether it
    -- returns or fails, every other address of the root translates as before, and the page table
    -- is consistent.
    pub map-translate :
        Ensures (λ _. MapsRange root c m tag) (λ _. Kept root c m tag) (map_table T A root c m)
    unfolding map_table validate_map_config
    map-translate = elim (Bool-cases (c.size == 0)) [
      | inl z ↦ rw z (fails unchanged)
      | inr z ↦ elim (Bool-cases (c.vaddr % page_size T == 0)) [
        | inr va ↦ rw (z, va) (fails unchanged)
        | inl va ↦ elim (Bool-cases (c.paddr % page_size T == 0)) [
          | inr pa ↦ rw (z, va, pa) (fails unchanged)
          | inl pa ↦
              elim (Bool-cases
                (leb usize_mod (c.vaddr + c.size) || leb usize_mod (c.paddr + c.size))) [
                  | inl over ↦ rw (z, va, pa, over) (fails unchanged)
                  | inr small ↦
                      rw (z, va, pa, small)
                        (mono
                          (map_range-Done T A (options T A c) g laws fl (table_levels T) c.size root
                            c.vaddr c.paddr (c.vaddr + c.size) m tag
                            (ready (ground arith) (ground arith) (ground arith) (ground arith))
                            (omega arith))
                          (λ _ s. Done-MapsRange) (λ _ s (tag', effect). Effect-Kept effect))
                ]
        ]
      ]
    ]

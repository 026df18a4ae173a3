-- ===== src/Paging/Unmap/Correct.antt =====
-- `PageTableRef::unmap` and `unmap_with_config` against `PageTableRef::translate`.
use native.Mathlib.Nat.{le_refl}
use sparreal_os.Prelude.{
  ℕ, ◌+◌, ◌%◌, ◌^◌, ◌≤◌, ◌<◌, ◌≡◌, refl, inl, inr, Bool, true, some, arith, Bool-cases, ◌==◌, leb,
  if◌then◌else◌,
}
use sparreal_os.Prelude.Outcome.{
  err, Run, throw, pure, ◌>>=◌, and_then, Ensures, fails, returns, bind, mono,
}
use sparreal_os.Paging.Config.{PhysAddr, PagingError, not_mapped, usize_mod}
use sparreal_os.Paging.Geometry.{GeometryLaws}
use sparreal_os.Paging.Geometry.Shifts.{shift}
use sparreal_os.Paging.Geometry.Slots.{slot, region}
use sparreal_os.Paging.Map.Tags.{Tags, Consistent}
use sparreal_os.Paging.Meta.{
  TableMeta, FrameAllocator, Machine, table_levels, page_size, EntryLaws, FrameLaws,
}
use sparreal_os.Paging.Translate.{translate}
use sparreal_os.Paging.Translate.Answers.{answer, translate-none, answer-translate}
use sparreal_os.Paging.Translate.Lookup.{lookup}
use sparreal_os.Paging.Unmap.{
  UnmapConfig, unmap_with_config, unmap, validate_unmap_params, unmap_range,
}
use sparreal_os.Paging.Unmap.Effect.{Unique, Unique-fewer, Spared, same, shared}
use sparreal_os.Paging.Unmap.Loop.{unmap_range-Done}
use sparreal_os.Paging.Unmap.Slots.{Starts}
use sparreal_os.Paging.Unmap.Steps.{Done}

module _ (T : TableMeta) (A : FrameAllocator) (g : GeometryLaws T) (laws : EntryLaws T)
    (fl : FrameLaws T laws.phys_limit A) where
  -- What `unmap` needs beyond what it checks: a consistent page table whose root covers the range,
  -- and room for one more entry of the root behind it.
  pub record Unmappable (root : PhysAddr) (c : UnmapConfig) (m : Machine T A) (tag : Tags)
      : Type 0 where
    pub consistent : Consistent T A fl.live m tag
    pub unique : Unique tag
    pub rooted :
        (w : ℕ)
        → c.start_vaddr ≤ w
        → w < c.start_vaddr + c.size
        → tag root ≡ some (table_levels T, region T (table_levels T) w)
    pub room : c.start_vaddr + c.size + 2 ^ shift T (table_levels T) ≤ usize_mod

  -- What becomes of an address: it translates as in `m`; or it does not translate any more, and
  -- the entry that mapped it mapped an address of the range as well.
  pub data Fate (root : PhysAddr) (c : UnmapConfig) (m m' : Machine T A) (w : ℕ) : Type 0 where
    as_before :
        answer (translate T A root w m') ≡ answer (translate T A root w m) → Fate root c m m' w
    with_block :
        (u l : ℕ) (e : T.Pte)
        → translate T A root w m' ≡ err not_mapped m'
        → lookup T A m (table_levels T) root w ≡ some (e, l)
        → c.start_vaddr ≤ u
        → u < c.start_vaddr + c.size
        → slot T l u ≡ slot T l w
        → Fate root c m m' w

  -- `m'` is a consistent page table under the same root with no more tables than `m`: whatever an
  -- entry that can be reached from the root points at is a live table of its place. No address outside
  -- the range has changed but with a block that reaches into the range.
  pub record Spares (root : PhysAddr) (c : UnmapConfig) (m : Machine T A) (tag : Tags)
      (m' : Machine T A) : Type 0 where
    pub tag' : Tags
    pub consistent : Consistent T A fl.live m' tag'
    pub unique : Unique tag'
    pub tags : (p : ℕ) {x : ℕ × ℕ} → tag' p ≡ some x → tag p ≡ some x
    pub rooted :
        (r : ℕ) → tag root ≡ some (table_levels T, r) → tag' root ≡ some (table_levels T, r)
    pub outside :
        (w : ℕ)
        → ¬ ((c.start_vaddr ≤ w) × (w < c.start_vaddr + c.size))
        → tag root ≡ some (table_levels T, region T (table_levels T) w)
        → Fate root c m m' w

  -- Besides, no address of the range translates.
  pub record Unmaps (root : PhysAddr) (c : UnmapConfig) (m : Machine T A) (tag : Tags)
      (m' : Machine T A) : Type 0 where
    pub spares : Spares root c m tag m'
    pub inside :
        (w : ℕ)
        → c.start_vaddr ≤ w
        → w < c.start_vaddr + c.size
        → translate T A root w m' ≡ err not_mapped m'

  module _ (root : PhysAddr) (c : UnmapConfig) (m : Machine T A) (tag : Tags)
      (can : Unmappable root c m tag) where
    abbrev Finished : Bool → Machine T A → Type 0
    Finished = Done T A laws fl (table_levels T) root c.start_vaddr (c.start_vaddr + c.size) m tag

    Spared-Fate :
        {m' : Machine T A} (w : ℕ)
        → Spared T A c.start_vaddr (c.start_vaddr + c.size) m m' (table_levels T) root w
        → Fate root c m m' w
    Spared-Fate {m'} w (same s) = as_before (answer-translate T A g m m' root w s)
    Spared-Fate {m'} w (shared u l e gone was lo hi s) =
        with_block u l e (translate-none T A g m' root w gone) was lo hi s

    Done-Spares : (b : Bool) (m' : Machine T A) → Finished b m' → Spares root c m tag m'
    Done-Spares b m' done = record {
      tag' = done.tag';
      consistent = done.effect.consistent;
      unique = Unique-fewer T A fl.live done.effect can.unique;
      tags = done.effect.fewer;
      rooted =
          λ r known. done.effect.stays root (table_levels T) r known (le_refl (table_levels T));
      outside = λ w out known. Spared-Fate w (
          done.effect.others w out (table_levels T) root (le_refl (table_levels T))
            (le_refl (table_levels T)) known);
    }

    Done-Unmaps :
        Starts T A m (table_levels T) root c.start_vaddr
        → (b : Bool) (m' : Machine T A) → Finished b m'
        → Unmaps root c m tag m'
    Done-Unmaps starts b m' done = record {
      spares = Done-Spares b m' done;
      inside = λ w lo hi. translate-none T A g m' root w (done.gone starts w lo hi);
    }

    -- What is refused leaves the memory alone.
    abbrev pub Refused : PagingError → Machine T A → Type 0
    Refused error m' = m' ≡ m

    -- What both do behind the checks of their arguments.
    abbrev attempt : PagingError → Bool → Machine T A → Run PagingError (Machine T A) (Unit {0})
    attempt error flush = if leb usize_mod (c.start_vaddr + c.size) then throw error else do
      can_reclaim ←
          unmap_range T A flush (table_levels T) c.size root c.start_vaddr (c.start_vaddr + c.size)
            true
      pure tt

    module _ (P : Machine T A → Type 0)
        (finished : (b : Bool) (m' : Machine T A) → Finished b m' → P m') where
      whole :
          (flush : Bool)
          → Ensures
              (λ _. P)
              Refused
              (unmap_range T A flush
                (table_levels T)
                c.size
                root
                c.start_vaddr
                (c.start_vaddr + c.size)
                true
                m)
      whole flush =
          mono
            (unmap_range-Done T A laws fl g flush (table_levels T) c.size root c.start_vaddr
              (c.start_vaddr + c.size) true m tag
              (record {
                consistent = can.consistent;
                unique = can.unique;
                pos = g.nonempty;
                deep = le_refl (table_levels T);
                tagged = can.rooted;
                room = can.room;
              })
              (omega arith))
            finished (λ _ s failed. absurd failed)

      -- Behind the checks of the arguments.
      validated :
          (k : Machine T A → Run PagingError (Machine T A) (Unit {0}))
          → Ensures (λ _. P) Refused (k m)
          → Ensures
              (λ _. P)
              Refused
              (and_then (validate_unmap_params T A c.start_vaddr c.size m) (λ _. k))
      unfolding validate_unmap_params
      validated k holds = elim (Bool-cases (c.size == 0)) [
        | inl z ↦ rw z (fails refl)
        | inr z ↦ elim (Bool-cases (c.start_vaddr % page_size T == 0)) [
          | inr va ↦ rw (z, va) (fails refl)
          | inl va ↦ elim (Bool-cases (c.size % page_size T == 0)) [
            | inr sa ↦ rw (z, va, sa) (fails refl)
            | inl sa ↦ rw (z, va, sa) holds
          ]
        ]
      ]

      attempt_lem :
          (error : PagingError) (flush : Bool) → Ensures (λ _. P) Refused (attempt error flush m)
      attempt_lem error flush = elim (Bool-cases (leb usize_mod (c.start_vaddr + c.size))) [
        | inl over ↦ rw over (fails refl)
        | inr small ↦
            rw small (bind (whole flush) (λ b s holds. returns holds) (λ error' s refused. refused))
      ]

      with_config : Ensures (λ _. P) Refused (unmap_with_config T A root c m)
      unfolding unmap_with_config
      with_config = validated _ (attempt_lem _ c.flush)

      without_config : Ensures (λ _. P) Refused (unmap T A root c.start_vaddr c.size m)
      unfolding unmap
      without_config = validated _ (attempt_lem _ true)

    -- If besides the walk of the first address stops at an entry whose slot begins there, as at a
    -- page, at a block that begins there, or anywhere from the first address of a slot of the root,
    -- no address of the range translates behind `unmap` or `unmap_with_config`.
    pub unmap-Unmaps :
        Starts T A m (table_levels T) root c.start_vaddr
        → Ensures (λ _. Unmaps root c m tag) Refused (unmap_with_config T A root c m)
          × Ensures (λ _. Unmaps root c m tag) Refused (unmap T A root c.start_vaddr c.size m)
    unmap-Unmaps starts = (
      with_config (Unmaps root c m tag) (Done-Unmaps starts),
      without_config (Unmaps root c m tag) (Done-Unmaps starts),
    )

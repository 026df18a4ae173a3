-- ===== src/Paging/Release/Subtree.antt =====
-- `Frame::dealloc_entry_recursive`: the table below one entry is handed back.
use sparreal_os.Prelude.{
  ℕ, suc, ◌<◌, ◌≤◌, ◌≡◌, refl, sym, ◌∙◌, ◌⊎◌, inl, inr, Bool, true, false, some, arith, ltb, leb,
  subst, ◌||◌, ◌==◌, ==_self,
}
use sparreal_os.Prelude.Outcome.{ok, Ensures, returns, bind, ◌>>◌, pure}
use sparreal_os.Paging.Config.{PhysAddr, invalid_config}
use sparreal_os.Paging.Frame.{store_entry, write_entry}
use sparreal_os.Paging.Map.Tags.{Tags, Consistent}
use sparreal_os.Paging.Meta.{TableMeta, FrameAllocator, Machine, table_levels, EntryLaws, FrameLaws}
use sparreal_os.Paging.Release.{dealloc_entry_recursive, deallocate_recursive}
use sparreal_os.Paging.Release.Entries.{pointer_parts}
use sparreal_os.Paging.Release.Loop.{deallocate_recursive-Works}
use sparreal_os.Paging.Release.Reach.{Reach, Dead, kept}
use sparreal_os.Paging.Translate.Lookup.{Kind-cases, vacant, mapping, pointer, kind, kind_invalid}
use sparreal_os.Paging.Unmap.Slots.{kind_zero_level}
use sparreal_os.Paging.Walk.Entries.{WalkLaws}

module _ (T : TableMeta) (A : FrameAllocator) (l frame i : ℕ) (m : Machine T A) where
  dealloc_entry_vacant :
      kind T l (m.table frame i) ≡ vacant
      → dealloc_entry_recursive T A (suc l) frame i m ≡ ok false m
  unfolding dealloc_entry_recursive kind
  dealloc_entry_vacant k = ground arith

  dealloc_entry_mapping :
      kind T l (m.table frame i) ≡ mapping
      → dealloc_entry_recursive T A (suc l) frame i m ≡ ok false m
  unfolding dealloc_entry_recursive kind
  dealloc_entry_mapping k = ground arith

  dealloc_entry_pointer :
      {q : PhysAddr}
      → 0 < l
      → i < T.entries
      → kind T l (m.table frame i) ≡ pointer q
      → dealloc_entry_recursive T A (suc l) frame i m
        ≡ (deallocate_recursive T A l q
              >> store_entry T A frame i (T.from_config invalid_config)
              >> pure true)
            m
  unfolding dealloc_entry_recursive kind
  dealloc_entry_pointer {q} pos h k =
      let config = T.to_config (m.table frame i) (ltb 1 (suc l)) in
      let parts = pointer_parts config.valid (config.huge || suc l == 1) config.paddr q k in
      let inside : (leb T.entries i || leb (suc l) 1) ≡ false = ground arith in
      let small : config.huge ≡ false = ground arith in rw (inside, parts.0, small, parts.2) refl

module _ (T : TableMeta) (A : FrameAllocator) (laws : EntryLaws T)
    (fl : FrameLaws T laws.phys_limit A) (l frame i : ℕ) (m : Machine T A) where
  -- The answer for an entry of a table at level `suc l`, and what has become of the table below it.
  pub data Subtree : Bool → Machine T A → Type 0 where
    untouched : ((q : PhysAddr) → ¬ (kind T l (m.table frame i) ≡ pointer q)) → Subtree false m
    freed :
        {q : PhysAddr} {s : Machine T A}
        → kind T l (m.table frame i) ≡ pointer q
        → kind T l (s.table frame i) ≡ vacant
        → Dead T A laws fl m l q s
        → ((x : PhysAddr)
            → fl.live s.frames x ≡ false
            → (fl.live m.frames x ≡ false) ⊎ Reach T A m l q x)
        → Subtree true s

  zero-cases : (n : ℕ) → (n ≡ 0) ⊎ (0 < n)
  zero-cases n = ground arith

  vacant_pointer : {q : PhysAddr} → ¬ (vacant ≡ pointer q)
  vacant_pointer k = ground arith

  mapping_pointer : {q : PhysAddr} → ¬ (mapping ≡ pointer q)
  mapping_pointer k = ground arith

  module _ (tag : Tags) (full : WalkLaws T) (c : Consistent T A fl.live m tag) (r : ℕ)
      (t : tag frame ≡ some (suc l, r)) (deep : suc l ≤ table_levels T) (h : i < T.entries) where
    unlinked-Subtree :
        (q : PhysAddr) (s : Machine T A)
        → kind T l (m.table frame i) ≡ pointer q
        → Dead T A laws fl m l q s
        → ((x : PhysAddr)
            → fl.live s.frames x ≡ false
            → (fl.live m.frames x ≡ false) ⊎ Reach T A m l q x)
        → Subtree true (write_entry T A frame i (T.from_config invalid_config) s)
    unfolding write_entry
    unlinked-Subtree q s k dead only =
        let blank : kind T l (T.from_config invalid_config) ≡ vacant =
          kind_invalid T laws l _
            (laws.valid_lem _ false ∙ laws.from_invalid invalid_config false refl) in
        freed k (rw (==_self frame, ==_self i) blank) dead only

    freed-Subtree :
        (q : PhysAddr)
        → 0 < l
        → kind T l (m.table frame i) ≡ pointer q
        → Ensures Subtree
            (λ _ _. ⊥)
            ((deallocate_recursive T A l q
                >> store_entry T A frame i (T.from_config invalid_config)
                >> pure true)
              m)
    unfolding store_entry write_entry
    freed-Subtree q pos k =
        bind
          (bind {P' = λ _ s. Subtree true s} {Q' = λ _ _. ⊥}
            (deallocate_recursive-Works T A laws fl full m (Reach T A m l q) tag c l q _
              (omega (arith, deep)) pos
              (c.child frame l r i t (rw (← full.full (suc l) (omega arith) deep) h) k)
              (λ x reach. reach) m
              (record {
                entry = λ p l' r' j t' h'. kept refl;
                fewer = λ x gone. gone;
                only = λ x gone. inl gone;
              }))
            (λ _ s (pruned, dead, fades). returns (unlinked-Subtree q s k dead pruned.only))
            (λ e s no. no))
          (λ _ s done. returns done) (λ e s no. no)

    -- `dealloc_entry_recursive` on an entry of a table of a consistent page table, whose tables have
    -- as many entries as a level has indices: it neither panics nor fails. It answers false and
    -- changes nothing where the entry points at no table. Where it points at one it answers true,
    -- the entry is vacant, every table that can be reached from the one below is free, and a frame
    -- that is free was free before or is such a table.
    pub dealloc_entry_recursive-Subtree :
        Ensures Subtree (λ _ _. ⊥) (dealloc_entry_recursive T A (suc l) frame i m)
    dealloc_entry_recursive-Subtree = elim (Kind-cases (kind T l (m.table frame i))) [
      | inl k ↦
          rw (dealloc_entry_vacant T A l frame i m k)
            (returns (untouched (λ q k'. vacant_pointer {q = q} (sym k ∙ k'))))
      | inr (inl k) ↦
          rw (dealloc_entry_mapping T A l frame i m k)
            (returns (untouched (λ q k'. mapping_pointer {q = q} (sym k ∙ k'))))
      | inr (inr (q, k)) ↦
          let pos : 0 < l = elim (zero-cases l) [
            | inl e ↦ absurd (
                kind_zero_level T A m (m.table frame i)
                  (subst (λ x. kind T x (m.table frame i) ≡ pointer q) e k))
            | inr more ↦ more
          ] in
          rw (dealloc_entry_pointer T A l frame i m pos h k) (freed-Subtree q pos k)
    ]

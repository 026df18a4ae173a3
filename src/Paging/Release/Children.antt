-- ===== src/Paging/Release/Children.antt =====
-- One entry of `deallocate_children`: the table below it is handed back and the entry unlinked.
use sparreal_os.Prelude.{
  ℕ, suc, ◌<◌, ◌≡◌, refl, sym, ap, ◌∙◌, subst, inl, inr, false, some, ==_self, arith,
}
use sparreal_os.Prelude.Outcome.{Run, Ensures, returns, bind, ◌>>◌}
use sparreal_os.Paging.Config.{PhysAddr, PagingError, invalid_config}
use sparreal_os.Paging.Frame.{store_entry, write_entry}
use sparreal_os.Paging.Map.Tags.{Tags, Consistent}
use sparreal_os.Paging.Map.Writes.{entry-cases, tag_eq}
use sparreal_os.Paging.Meta.{TableMeta, FrameAllocator, Machine, M, EntryLaws, FrameLaws}
use sparreal_os.Paging.Release.{clear_child}
use sparreal_os.Paging.Release.Entries.{
  clear_child_vacant, clear_child_mapping, clear_child_pointer,
}
use sparreal_os.Paging.Release.Reach.{Reach, Dead, Entry, kept, cleared, Pruned}
use sparreal_os.Paging.Translate.Lookup.{Kind-cases, vacant, mapping, pointer, kind, kind_invalid}
use sparreal_os.Paging.Walk.Entries.{WalkLaws}

module _ (T : TableMeta) (A : FrameAllocator) (laws : EntryLaws T)
    (fl : FrameLaws T laws.phys_limit A) (full : WalkLaws T) (m : Machine T A)
    (goal : PhysAddr → Type 0) (tag : Tags) (c : Consistent T A fl.live m tag) where
  -- What was handed back stays so.
  abbrev pub Fades : Machine T A → Machine T A → Type 0
  Fades s s' = (x : PhysAddr) → fl.live s.frames x ≡ false → fl.live s'.frames x ≡ false

  abbrev pub P : Machine T A → Type 0
  P s = Pruned T A laws fl m goal tag s

  abbrev pub D : ℕ → PhysAddr → Machine T A → Type 0
  D l q s = Dead T A laws fl m l q s

  -- The table that an entry of `p` pointed at is handed back, with all below it.
  abbrev pub DeadChild : ℕ → PhysAddr → ℕ → Machine T A → Type 0
  DeadChild l p i s = (q : PhysAddr) → kind T l (m.table p i) ≡ pointer q → D l q s

  -- What a run on the table `q` of a level is to do.
  abbrev pub Works : ℕ → PhysAddr → Machine T A → Run PagingError (Machine T A) (Unit {0}) → Type 0
  Works l q s = Ensures (λ _ s'. P s' × D l q s' × Fades s s') (λ _ _. ⊥)

  abbrev pub Wanted : ℕ → PhysAddr → Type 0
  Wanted l q = (x : PhysAddr) → Reach T A m l q x → goal x

  pointer_eq : {q q' : PhysAddr} → pointer q ≡ pointer q' → q ≡ q'
  pointer_eq h = ground arith

  vacant_pointer : {q : PhysAddr} → ¬ (vacant ≡ pointer q)
  vacant_pointer h = ground arith

  mapping_pointer : {q : PhysAddr} → ¬ (mapping ≡ pointer q)
  mapping_pointer h = ground arith

  vacant_mapping : ¬ (vacant ≡ mapping)
  vacant_mapping h = ground arith

  pub persist : (l q : ℕ) (s s' : Machine T A) → Fades s s' → D l q s → D l q s'
  persist l q s s' fades dead x reach = fades x (dead x reach)

  -- An entry that a later state has unchanged.
  pub unlinked_other :
      {l p j : ℕ} (s s' : Machine T A)
      → s'.table p j ≡ s.table p j
      → Fades s s'
      → Entry T A laws fl m l s p j
      → Entry T A laws fl m l s' p j
  unlinked_other s s' same fades (kept e) = kept (same ∙ e)
  unlinked_other {l} s s' same fades (cleared {q} k was dead) =
      cleared (ap (kind T l) same ∙ k) was (persist l q s s' fades dead)

  module _ (l p r i : ℕ) (t : tag p ≡ some (suc l, r)) (h : i < T.entries) where
    -- An entry that is vacant now pointed at nothing, or at a table that has been handed back.
    vacant_child :
        (s : Machine T A)
        → Entry T A laws fl m l s p i
        → kind T l (s.table p i) ≡ vacant
        → DeadChild l p i s
    vacant_child s (kept e) k q points =
        absurd (vacant_pointer {q = q} (sym k ∙ ap (kind T l) e ∙ points))
    vacant_child s (cleared k' was dead) k q points =
        subst (λ y. D l y s) (pointer_eq (sym was ∙ points)) dead

    mapping_child :
        (s : Machine T A)
        → Entry T A laws fl m l s p i
        → kind T l (s.table p i) ≡ mapping
        → DeadChild l p i s
    mapping_child s (kept e) k q points =
        absurd (mapping_pointer {q = q} (sym k ∙ ap (kind T l) e ∙ points))
    mapping_child s (cleared k' was dead) k q points = absurd (vacant_mapping (sym k' ∙ k))

    pointer_child :
        (s : Machine T A) {q : PhysAddr}
        → Entry T A laws fl m l s p i
        → kind T l (s.table p i) ≡ pointer q
        → kind T l (m.table p i) ≡ pointer q
    pointer_child s (kept e) k = ap (kind T l) (sym e) ∙ k
    pointer_child s {q} (cleared k' was dead) k = absurd (vacant_pointer {q = q} (sym k' ∙ k))

    -- Unlinking a table that has been handed back.
    unlink :
        (s : Machine T A) (q : PhysAddr)
        → kind T l (m.table p i) ≡ pointer q
        → D l q s
        → P s
        → P (write_entry T A p i (T.from_config invalid_config) s)
    unfolding write_entry
    unlink s q points dead pruned = record {
      entry = λ p' l' r' j t' h'. elim (entry-cases p' j p i) [
        | inl (ep, ej) ↦
            let level : l' ≡ l = omega (arith, (tag_eq (sym t' ∙ ap tag ep ∙ t)).0) in
            let blank : kind T l (T.from_config invalid_config) ≡ vacant =
              kind_invalid T laws l _
                (laws.valid_lem _ false ∙ laws.from_invalid invalid_config false refl) in
            subst
              (λ x.
                Entry T A laws fl m x (write_entry T A p i (T.from_config invalid_config) s) p' j)
              (sym level)
              (cleared (rw (ep, ej, ==_self p, ==_self i) blank)
                (ap (kind T l) (ap (λ y. m.table y j) ep ∙ ap (m.table p) ej) ∙ points) dead)
        | inr other ↦
            let same : (write_entry T A p i (T.from_config invalid_config) s).table p' j
                ≡ s.table p' j =
              ground arith in
            unlinked_other s _ same (λ x h. h) (pruned.entry p' l' r' j t' h')
      ];
      fewer = pruned.fewer;
      only = pruned.only;
    }

    -- What one round does.
    abbrev Round : Machine T A → Run PagingError (Machine T A) (Unit {0}) → Type 0
    Round s = Ensures (λ _ s'. P s' × DeadChild l p i s' × Fades s s') (λ _ _. ⊥)

    module _ (work : PhysAddr → M T A (Unit {0})) where
      unlink-Round :
          (s : Machine T A) (q : PhysAddr)
          → kind T l (m.table p i) ≡ pointer q
          → Works l q s (work q s)
          → Round s ((work q >> store_entry T A p i (T.from_config invalid_config)) s)
      unfolding store_entry write_entry
      unlink-Round s q points done =
          bind done
            (λ _ s' (pruned, dead, fades). returns (
              unlink s' q points dead pruned,
              (λ q' points' x reach.
                  dead x
                    (subst (λ y. Reach T A m l y x) (pointer_eq (sym points' ∙ points)) reach)),
              fades,
            ))
            (λ e s' no. no)

      pub clear_child-Round :
          (s : Machine T A)
          → P s
          → ((q : PhysAddr) → kind T l (m.table p i) ≡ pointer q → Works l q s (work q s))
          → Round s (clear_child T A work (suc l) p i s)
      clear_child-Round s pruned works =
          let entry = pruned.entry p l r i t h in
          elim (Kind-cases (kind T l (s.table p i))) [
            | inl k ↦
                rw (clear_child_vacant T A work l p i s k)
                  (returns (pruned, vacant_child s entry k, λ x dead. dead))
            | inr (inl k) ↦
                rw (clear_child_mapping T A work l p i s k)
                  (returns (pruned, mapping_child s entry k, λ x dead. dead))
            | inr (inr (q, k)) ↦
                let points = pointer_child s entry k in
                rw (clear_child_pointer T A work l p i s k)
                  (unlink-Round s q points (works q points))
          ]

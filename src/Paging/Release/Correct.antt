-- ===== src/Paging/Release/Correct.antt =====
-- What the deallocation of a page table does to it.
use native.Mathlib.Nat.{le_refl}
use sparreal_os.Prelude.{ℕ, suc, arith, ◌<◌, ◌≡◌, refl, sym, ◌∙◌, ◌⊎◌, inl, false, some}
use sparreal_os.Prelude.Outcome.{Ensures, mono}
use sparreal_os.Paging.Config.{PhysAddr}
use sparreal_os.Paging.Map.Tags.{Tags, Consistent}
use sparreal_os.Paging.Meta.{TableMeta, FrameAllocator, Machine, table_levels, EntryLaws, FrameLaws}
use sparreal_os.Paging.Release.{deallocate}
use sparreal_os.Paging.Release.Loop.{deallocate_recursive-Works}
use sparreal_os.Paging.Release.Reach.{Reach, Entry, kept, cleared}
use sparreal_os.Paging.Translate.Lookup.{mapping, pointer, kind}
use sparreal_os.Paging.Walk.Entries.{WalkLaws}

module _ (T : TableMeta) (A : FrameAllocator) (laws : EntryLaws T)
    (fl : FrameLaws T laws.phys_limit A) (root : PhysAddr) (m : Machine T A) (tag : Tags) where
  -- `s` is `m` after the page table at `root` was handed back.
  pub record Deallocated (s : Machine T A) : Type 0 where
    -- Every table of the page table is free.
    pub freed : (x : PhysAddr) → Reach T A m (table_levels T) root x → fl.live s.frames x ≡ false
    -- Every frame that was freed is a table of the page table.
    pub only :
        (x : PhysAddr)
        → fl.live s.frames x ≡ false
        → (fl.live m.frames x ≡ false) ⊎ Reach T A m (table_levels T) root x
    -- The entries that map pages and blocks are as they were.
    pub pages :
        (p l r j : ℕ)
        → tag p ≡ some (suc l, r)
        → j < T.entries
        → kind T l (m.table p j) ≡ mapping
        → s.table p j ≡ m.table p j

  pointer_mapping : {q : PhysAddr} → ¬ (pointer q ≡ mapping)
  pointer_mapping k = ground arith

  kept_mapping :
      (l p j : ℕ) (s : Machine T A)
      → Entry T A laws fl m l s p j
      → kind T l (m.table p j) ≡ mapping
      → s.table p j ≡ m.table p j
  kept_mapping l p j s (kept e) k = e
  kept_mapping l p j s (cleared {q} k' was dead) k = absurd (pointer_mapping {q = q} (sym was ∙ k))

  -- `deallocate` on a consistent page table whose tables have as many entries as a level has
  -- indices, and whose root is a table of the top level: it neither panics nor fails, every table
  -- that can be reached from the root is free afterwards, a frame that is free afterwards was free
  -- before or is such a table, and the entries that map pages or blocks are left as they were.
  pub deallocate-Deallocated :
      (full : WalkLaws T) (c : Consistent T A fl.live m tag) (r : ℕ)
      → tag root ≡ some (table_levels T, r)
      → 0 < table_levels T
      → Ensures (λ _ s. Deallocated s) (λ _ _. ⊥) (deallocate T A root m)
  unfolding deallocate
  deallocate-Deallocated full c r t pos =
      mono
        (deallocate_recursive-Works T A laws fl full m (Reach T A m (table_levels T) root) tag c
          (table_levels T) root r (le_refl (table_levels T)) pos t (λ x reach. reach) m
          (record {
            entry = λ p l r' j t' h. kept refl;
            fewer = λ x gone. gone;
            only = λ x gone. inl gone;
          }))
        (λ _ s (pruned, dead, fades). record {
          freed = dead;
          only = pruned.only;
          pages = λ p l r' j t' h k. kept_mapping l p j s (pruned.entry p l r' j t' h) k;
        })
        (λ e s no. no)

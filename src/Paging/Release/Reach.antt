-- ===== src/Paging/Release/Reach.antt =====
-- The tables that can be reached from a table, and a page table some of whose tables are handed back.
use sparreal_os.Prelude.{ℕ, suc, ◌<◌, ◌≡◌, ◌⊎◌, false, some}
use sparreal_os.Paging.Config.{PhysAddr}
use sparreal_os.Paging.Map.Tags.{Tags}
use sparreal_os.Paging.Meta.{TableMeta, FrameAllocator, Machine, EntryLaws, FrameLaws}
use sparreal_os.Paging.Translate.Lookup.{vacant, pointer, kind}

module _ (T : TableMeta) (A : FrameAllocator) (m : Machine T A) where
  -- From the table `p` of a level the walk can come to the table `x`.
  pub data Reach : ℕ → PhysAddr → PhysAddr → Type 0 where
    self : {l p : ℕ} → Reach l p p
    below :
        {l p q x : ℕ} (j : ℕ)
        → j < T.entries
        → kind T l (m.table p j) ≡ pointer q
        → Reach l q x
        → Reach (suc l) p x

module _ (T : TableMeta) (A : FrameAllocator) (laws : EntryLaws T)
    (fl : FrameLaws T laws.phys_limit A) (m : Machine T A) where
  -- Every table that was reached from `p` has been handed back.
  abbrev pub Dead : ℕ → PhysAddr → Machine T A → Type 0
  Dead l p s = (x : PhysAddr) → Reach T A m l p x → fl.live s.frames x ≡ false

  -- An entry is as it was, or it pointed at a table that has been handed back with all below it.
  pub data Entry (l : ℕ) (s : Machine T A) (p j : ℕ) : Type 0 where
    kept : s.table p j ≡ m.table p j → Entry l s p j
    cleared :
        {q : PhysAddr}
        → kind T l (s.table p j) ≡ vacant
        → kind T l (m.table p j) ≡ pointer q
        → Dead l q s
        → Entry l s p j

  -- `s` is `m` with some of the tables that `goal` names handed back.
  pub record Pruned (goal : PhysAddr → Type 0) (tag : Tags) (s : Machine T A) : Type 0 where
    pub entry : (p l r j : ℕ) → tag p ≡ some (suc l, r) → j < T.entries → Entry l s p j
    pub fewer : (x : PhysAddr) → fl.live m.frames x ≡ false → fl.live s.frames x ≡ false
    pub only : (x : PhysAddr) → fl.live s.frames x ≡ false → (fl.live m.frames x ≡ false) ⊎ goal x

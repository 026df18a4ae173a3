-- ===== src/Paging/Release/Entries.antt =====
-- One round of `deallocate_children`, by the kind of the entry.
use sparreal_os.Prelude.{ℕ, suc, ◌≡◌, Bool, true, false, ◌||◌, ◌==◌, if◌then◌else◌, ltb, arith}
use sparreal_os.Prelude.Outcome.{ok, ◌>>◌}
use sparreal_os.Paging.Config.{PhysAddr, invalid_config}
use sparreal_os.Paging.Frame.{store_entry}
use sparreal_os.Paging.Meta.{TableMeta, FrameAllocator, Machine, M}
use sparreal_os.Paging.Release.{clear_child}
use sparreal_os.Paging.Translate.Lookup.{vacant, mapping, pointer, kind}

pub pointer_parts :
    (valid leaf : Bool) (paddr q : PhysAddr)
    → (if valid then (if leaf then mapping else pointer paddr) else vacant) ≡ pointer q
    → (valid ≡ true) × (leaf ≡ false) × (paddr ≡ q)
pointer_parts valid leaf paddr q k = ground arith

module _ (T : TableMeta) (A : FrameAllocator) (below : PhysAddr → M T A (Unit {0})) (l p i : ℕ)
    (s : Machine T A) where
  pub clear_child_vacant :
      kind T l (s.table p i) ≡ vacant → clear_child T A below (suc l) p i s ≡ ok tt s
  unfolding clear_child kind
  clear_child_vacant k = ground arith

  pub clear_child_mapping :
      kind T l (s.table p i) ≡ mapping → clear_child T A below (suc l) p i s ≡ ok tt s
  unfolding clear_child kind
  clear_child_mapping k = ground arith

  pub clear_child_pointer :
      {q : PhysAddr}
      → kind T l (s.table p i) ≡ pointer q
      → clear_child T A below (suc l) p i s
        ≡ (below q >> store_entry T A p i (T.from_config invalid_config)) s
  unfolding clear_child kind
  clear_child_pointer {q} k =
      let config = T.to_config (s.table p i) (ltb 1 (suc l)) in
      let parts = pointer_parts config.valid (config.huge || suc l == 1) config.paddr q k in
      rw (parts.0, parts.1, parts.2)

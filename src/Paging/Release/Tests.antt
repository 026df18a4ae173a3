-- ===== src/Paging/Release/Tests.antt =====
-- The theorem on the deallocation of page tables at a small page table of two levels.
use sparreal_os.Prelude.{refl, arith}
use sparreal_os.Prelude.Outcome.{Ensures}
use sparreal_os.Paging.Release.{deallocate, dealloc_entry_recursive}
use sparreal_os.Paging.Release.Correct.{Deallocated, deallocate-Deallocated}
use sparreal_os.Paging.Release.Subtree.{Subtree, dealloc_entry_recursive-Subtree}
use sparreal_os.Paging.Samples.{
  Small, Small-EntryLaws, Small-WalkLaws, used_frames, used_frames-FrameLaws, two_pages, two_tags,
  two_pages-Consistent,
}

deallocate-Deallocated_example :
    Ensures
      (λ _.
        Deallocated Small used_frames Small-EntryLaws used_frames-FrameLaws 4096 two_pages two_tags)
      (λ _ _. ⊥)
      (deallocate Small used_frames 4096 two_pages)
deallocate-Deallocated_example =
    deallocate-Deallocated Small used_frames Small-EntryLaws used_frames-FrameLaws 4096 two_pages
      two_tags Small-WalkLaws two_pages-Consistent 0 refl (omega arith)

dealloc_entry_recursive-Subtree_example :
    Ensures
      (Subtree Small used_frames Small-EntryLaws used_frames-FrameLaws 1 4096 0 two_pages)
      (λ _ _. ⊥)
      (dealloc_entry_recursive Small used_frames 2 4096 0 two_pages)
dealloc_entry_recursive-Subtree_example =
    dealloc_entry_recursive-Subtree Small used_frames Small-EntryLaws used_frames-FrameLaws 1 4096 0
      two_pages two_tags Small-WalkLaws two_pages-Consistent 0 refl (omega arith) (omega arith)

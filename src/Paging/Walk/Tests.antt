-- ===== src/Paging/Walk/Tests.antt =====
-- The theorem on the walker at a small page table of two levels.
use sparreal_os.Prelude.{◌≡◌, some, map, take}
use sparreal_os.Paging.Samples.{Small, Small-WalkLaws, used_frames, two_pages}
use sparreal_os.Paging.Walk.{WalkConfig, new_walker}
use sparreal_os.Paging.Walk.Calls.{calls, traversal, calls-traversal}

abbrev low_range : WalkConfig
low_range = record { start_vaddr = 0; end_vaddr = 0x10_0000 }

calls-traversal_example :
    calls Small used_frames two_pages 5 (new_walker Small used_frames two_pages 4096 low_range)
    ≡ map some (take 5 (traversal Small used_frames two_pages 4096 low_range))
calls-traversal_example =
    calls-traversal Small used_frames two_pages Small-WalkLaws 4096 low_range 5

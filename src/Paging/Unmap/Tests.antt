-- ===== src/Paging/Unmap/Tests.antt =====
-- The theorems on unmapping at a small page table of two levels.
use sparreal_os.Prelude.{ℕ, ◌+◌, ◌<◌, ◌≡◌, refl, true, ◌≤◌, arith, ◌^◌}
use sparreal_os.Prelude.Outcome.{Ensures}
use sparreal_os.Paging.Config.{usize_mod}
use sparreal_os.Paging.Geometry.{sum, low_bits}
use sparreal_os.Paging.Geometry.Shifts.{shift}
use sparreal_os.Paging.Geometry.Slots.{region, slot, index}
use sparreal_os.Paging.Samples.{
  Small, Small-EntryLaws, Small-GeometryLaws, used_frames, used_frames-FrameLaws, two_pages,
  two_tags, two_pages-Consistent,
}
use sparreal_os.Paging.Translate.Lookup.{kind}
use sparreal_os.Paging.Unmap.{UnmapConfig, unmap_with_config, unmap}
use sparreal_os.Paging.Unmap.Correct.{Unmappable, Unmaps, unmap-Unmaps}
use sparreal_os.Paging.Unmap.Effect.{Unique}
use sparreal_os.Paging.Unmap.Slots.{Starts, stop_level}

abbrev first_page : UnmapConfig
first_page = record { start_vaddr = 8192; size = 4096; flush = true }

two_tags-Unique : Unique two_tags
two_tags-Unique p q x t t' = ground arith

region_low : (w : ℕ) → w < 0x10_0000 → region Small 2 w ≡ 0
unfolding region slot low_bits sum
region_low w h = omega arith

small_room : 12288 + 2 ^ shift Small 2 ≤ usize_mod
unfolding low_bits sum
small_room = omega arith

first_page-Unmappable :
    Unmappable Small used_frames Small-GeometryLaws Small-EntryLaws used_frames-FrameLaws 4096
      first_page two_pages two_tags
first_page-Unmappable = record {
  consistent = two_pages-Consistent;
  unique = two_tags-Unique;
  rooted = λ w lo hi. rw (region_low w (omega arith));
  room = small_room;
}

first_page-Starts : Starts Small used_frames two_pages 2 4096 8192
unfolding stop_level kind index slot low_bits sum
first_page-Starts = refl

unmap-Unmaps_example :
    Ensures
      (λ _.
        Unmaps Small used_frames Small-GeometryLaws Small-EntryLaws used_frames-FrameLaws 4096
          first_page two_pages two_tags)
      (λ _ m'. m' ≡ two_pages)
      (unmap_with_config Small used_frames 4096 first_page two_pages)
    × Ensures
        (λ _.
          Unmaps Small used_frames Small-GeometryLaws Small-EntryLaws used_frames-FrameLaws 4096
            first_page two_pages two_tags)
        (λ _ m'. m' ≡ two_pages)
        (unmap Small used_frames 4096 8192 4096 two_pages)
unmap-Unmaps_example =
    unmap-Unmaps Small used_frames Small-GeometryLaws Small-EntryLaws used_frames-FrameLaws 4096
      first_page two_pages two_tags first_page-Unmappable first_page-Starts

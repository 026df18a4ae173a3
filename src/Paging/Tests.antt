-- ===== src/Paging/Tests.antt =====
-- The theorems on paging at a small page table of aarch64.
use sparreal_os.Prelude.{
  ℕ, ◌+◌, ◌*◌, ◌<◌, ◌≡◌, refl, Bool, true, false, not, ◌&&◌, ◌||◌, ◌==◌, if◌then◌else◌, leb, none,
  some, arith, [], ◌^◌,
}
use sparreal_os.Prelude.Outcome.{Ensures}
use sparreal_os.Aarch64.{Generic}
use sparreal_os.Aarch64.Laws.{Generic-EntryLaws, Generic-GeometryLaws}
use sparreal_os.Paging.Config.{normal}
use sparreal_os.Paging.Geometry.{sum, low_bits}
use sparreal_os.Paging.Geometry.Slots.{region, slot}
use sparreal_os.Paging.Map.{MapConfig, map_table}
use sparreal_os.Paging.Map.Correct.{Mappable, MapsRange, Kept, map-translate}
use sparreal_os.Paging.Map.Tags.{Tags, Consistent}
use sparreal_os.Paging.Meta.{FrameAllocator, FrameLaws, Machine}
use sparreal_os.Paging.Translate.{translate_recursive_with_level}
use sparreal_os.Paging.Translate.Lookup.{kind_zero, lookup, found, translate-lookup}

-- An allocator that hands out frames in order.
pub record Frames : Type 0 where
  pub next : ℕ
  pub used : ℕ → Bool

abbrev frames : FrameAllocator
frames = record {
  State = Frames;
  alloc_frame = λ s.
      if s.used (s.next * 4096) || leb (2 ^ 36) s.next
      then none
      else some (
        s.next * 4096,
        record { next = s.next + 1; used = λ q. (q == s.next * 4096) || s.used q },
      );
  dealloc_frame = λ p s. record s { used = λ q. not (q == p) && s.used q };
}

abbrev frames-FrameLaws : FrameLaws Generic (2 ^ 48) frames
frames-FrameLaws = record {
  live = λ s. s.used;
  alloc_fresh = λ s got. ground arith;
  alloc_live = λ s got q. ground arith;
  alloc_fits = λ s got. ground arith;
  dealloc_live = λ s p q. refl;
}

-- A cleared root at 4096, and a request for three pages at 8192.
abbrev root_tag : Tags
root_tag p = if p == 4096 then some (4, 0) else none

abbrev empty_table : Machine Generic frames
empty_table = record {
  table = λ p i. 0;
  frames = record { next = 2; used = λ p. p == 4096 };
  flushed = [];
}

abbrev request : MapConfig
request = record {
  vaddr = 8192;
  paddr = 0x4000_0000;
  size = 12288;
  pte = record {
    paddr = 0;
    valid = true;
    read = true;
    writable = true;
    executable = false;
    lower = false;
    dirty = false;
    global = true;
    is_dir = false;
    huge = false;
    mem_attr = normal;
  };
  allow_huge = true;
  flush = true;
}

region_low : (w : ℕ) → w < 0x10_0000 → region Generic 4 w ≡ 0
unfolding region slot low_bits sum
region_low w h = omega arith

empty_table-Consistent : Consistent Generic frames frames-FrameLaws.live empty_table root_tag
empty_table-Consistent = record {
  child = λ p l r i t h k. cc (kind_zero Generic Generic-EntryLaws l, k);
  owned = λ p t. ground arith;
}

request-Mappable :
    Mappable Generic frames Generic-GeometryLaws Generic-EntryLaws frames-FrameLaws 4096 request
      empty_table root_tag
request-Mappable = record {
  consistent = empty_table-Consistent;
  rooted = λ w lo hi. rw (region_low w (omega arith));
  whole_pages = refl;
  fits = omega arith;
}

map-translate_example :
    Ensures
      (λ _.
        MapsRange Generic frames Generic-GeometryLaws Generic-EntryLaws frames-FrameLaws 4096
          request empty_table root_tag)
      (λ _.
        Kept Generic frames Generic-GeometryLaws Generic-EntryLaws frames-FrameLaws 4096 request
          empty_table root_tag)
      (map_table Generic frames 4096 request empty_table)
map-translate_example =
    map-translate Generic frames Generic-GeometryLaws Generic-EntryLaws frames-FrameLaws 4096
      request empty_table root_tag request-Mappable

translate-lookup_example :
    translate_recursive_with_level Generic frames 4 4096 8192 empty_table
    ≡ found Generic frames empty_table (lookup Generic frames empty_table 4 4096 8192)
translate-lookup_example =
    translate-lookup Generic frames Generic-GeometryLaws empty_table 3 4096 8192 (omega arith)

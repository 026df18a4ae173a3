-- ===== src/Ranges/Tests.antt =====
-- The theorems on range sets at a memory map of two descriptors.
use sparreal_os.Prelude.{ℕ, ◌≡◌, List, [], ◌∷◌, some, arith}
use sparreal_os.Prelude.Outcome.{Ensures}
use sparreal_os.Ranges.{merge_same_kind, merge_add}
use sparreal_os.Ranges.Add.{Added, Aborted, merge_add_lem}
use sparreal_os.Ranges.Coverage.{Valid, covered}
use sparreal_os.Ranges.Memory.{
  MemoryDescriptor, MemoryType, free, reserved, MemoryRanges, MemoryRanges-RangeLaws,
}
use sparreal_os.Ranges.Merge.{Separate, merge_same_kind_lem}

abbrev memory : List MemoryDescriptor
memory =
    record { physical_start = 0; size_in_bytes = 4096; memory_type = free }
    ∷ record { physical_start = 4096; size_in_bytes = 4096; memory_type = free }
    ∷ []

abbrev image : MemoryDescriptor
image = record { physical_start = 1024; size_in_bytes = 512; memory_type = reserved }

memory-Valid : Valid MemoryRanges memory
unfolding Valid
memory-Valid = (omega arith, (omega arith, tt))

merge_same_kind_lem_example :
    (ys : List MemoryDescriptor) × (merge_same_kind MemoryRanges 3 memory ≡ some ys)
    × Valid MemoryRanges ys
    × ((a : ℕ) (k : MemoryType) → covered MemoryRanges ys a k ≡ covered MemoryRanges memory a k)
    × Separate MemoryRanges MemoryRanges-RangeLaws ys
merge_same_kind_lem_example =
    merge_same_kind_lem MemoryRanges MemoryRanges-RangeLaws 3 memory memory-Valid (omega arith)

merge_add_lem_example :
    Ensures
      (λ _. Added MemoryRanges MemoryRanges-RangeLaws image memory)
      (Aborted MemoryRanges MemoryRanges-RangeLaws image memory)
      (merge_add MemoryRanges image memory)
merge_add_lem_example =
    merge_add_lem MemoryRanges MemoryRanges-RangeLaws image memory memory-Valid (omega arith)

-- ===== src/Ranges/Memory.antt =====
-- crates/kernutil/src/memory.rs: memory descriptors as ranges. The end of a descriptor is taken to
-- fit a `usize`.
use sparreal_os.Prelude.{ℕ, ◌+◌, ◌-◌, ◌≡◌, refl, Bool, true, false, ◌==◌, arith}
use sparreal_os.Ranges.{RangeOp, RangeLaws}

pub data MemoryType : Type 0 where
  free ram kimage reserved mmio per_cpu_data : MemoryType

pub record MemoryDescriptor : Type 0 where
  pub physical_start : ℕ
  pub size_in_bytes : ℕ
  pub memory_type : MemoryType

-- `==` on memory types compares their numbers.
abbrev pub discriminant : MemoryType → ℕ
discriminant free = 0
discriminant ram = 1
discriminant kimage = 2
discriminant reserved = 3
discriminant mmio = 4
discriminant per_cpu_data = 5

-- For `start` not above `stop`: the source panics, or wraps round, otherwise.
abbrev pub new_with_range : (start stop : ℕ) → MemoryType → MemoryDescriptor
new_with_range start stop memory_type = record {
  physical_start = start;
  size_in_bytes = stop - start;
  memory_type = memory_type;
}

abbrev pub is_free : MemoryType → Bool
is_free free = true
is_free _ = false

abbrev pub MemoryRanges : RangeOp
MemoryRanges = record {
  Item = MemoryDescriptor;
  Kind = MemoryType;
  start = λ d. d.physical_start;
  stop = λ d. d.physical_start + d.size_in_bytes;
  kind = λ d. d.memory_type;
  same_kind = λ a b. discriminant a == discriminant b;
  overwritable = λ d other. is_free d.memory_type;
  clone_with_range = λ d start stop. new_with_range start stop d.memory_type;
}

pub MemoryRanges-RangeLaws : RangeLaws MemoryRanges
MemoryRanges-RangeLaws = record {
  clone_start = λ x a b h. refl;
  clone_stop = λ x a b h. omega arith;
  clone_kind = λ x a b. refl;
  same_kind_lem = λ j k l h. let same : discriminant j ≡ discriminant k = ground arith in rw same;
}

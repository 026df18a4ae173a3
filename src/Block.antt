-- ===== src/Block.antt =====
-- driver/interface/rdif-block/src/lib.rs: the types that block drivers share.
pub mod IdList
pub mod RamDisk
use sparreal_os.Prelude.{ℕ, List}

pub data BlkError : Type 0 where
  not_supported retry no_memory other : BlkError
  invalid_block_index : ℕ → BlkError

-- A buffer counts by its size; a request to write carries its bytes.
pub data RequestKind : Type 0 where
  read : (size : ℕ) → RequestKind
  write : List ℕ → RequestKind

pub record Request : Type 0 where
  pub block_id : ℕ
  pub kind : RequestKind

-- ===== src/Block/RamDisk.antt =====
-- driver/block/ramdisk/src/lib.rs: a block device in memory. `RamInner` is the state that the
-- device and its queues share behind a lock; each operation holds the lock.
pub mod Bytes
pub mod Requests
pub mod Contents
mod Tests
use sparreal_os.Prelude.{
  ℕ, zero, suc, ◌+◌, ◌*◌, ◌%◌, ◌^◌, Bool, true, false, not, ◌==◌, if◌then◌else◌, ltb, leb, Option,
  List, [], ◌∷◌, ◌++◌, length, take, drop, replicate,
}
use sparreal_os.Prelude.Outcome.{Run, ok, err, panic, out_of_fuel}
use sparreal_os.Block.{
  BlkError, not_supported, retry, invalid_block_index, Request, RequestKind, read, write,
}
use sparreal_os.Block.IdList
use sparreal_os.Block.RamDisk.Bytes.{copy}

pub record RamInner : Type 0 where
  pub storage : List ℕ
  pub completed_reads : List ℕ
  pub completed_writes : List ℕ
  pub irq_rx : ℕ
  pub irq_enabled : Bool
  pub next_req_id : ℕ
  pub next_queue_id : ℕ

pub record RamDisk : Type 0 where
  pub block_size : ℕ
  pub num_blocks : ℕ
  pub inner : RamInner

-- A queue has the sizes of its disk.
pub record RamQueue : Type 0 where
  pub id : ℕ
  pub block_size : ℕ
  pub num_blocks : ℕ

-- The blocks from number `i` on, each filled with its number as a `u8`.
unfoldable pub filled : (block_size i blocks : ℕ) → List ℕ
filled block_size i zero = []
filled block_size i (suc blocks) =
    replicate block_size (i % 2 ^ 8) ++ filled block_size (suc i) blocks

-- `RamDisk::with_name`; the state is that of the new disk, and the panic is the assertion's.
unfoldable pub with_name : (block_size num_blocks : ℕ) → Run BlkError RamInner RamDisk
with_name block_size num_blocks =
    if ltb 0 block_size
    then (let inner : RamInner = record {
      storage = filled block_size 0 num_blocks;
      completed_reads = [];
      completed_writes = [];
      irq_rx = IdList.none;
      irq_enabled = true;
      next_req_id = 1;
      next_queue_id = 0;
    } in
        ok (record { block_size = block_size; num_blocks = num_blocks; inner = inner }) inner)
    else panic

unfoldable pub create_queue : RamDisk → RamQueue × RamDisk
create_queue d = (
  record { id = d.inner.next_queue_id; block_size = d.block_size; num_blocks = d.num_blocks },
  record d { inner = record d.inner { next_queue_id = d.inner.next_queue_id + 1 } },
)

pub enable_irq : RamInner → RamInner
enable_irq s = record s { irq_enabled = true }

pub disable_irq : RamInner → RamInner
disable_irq s = record s { irq_enabled = false }

-- The event that the interrupt hands over.
unfoldable pub handle_irq : RamInner → ℕ × RamInner
handle_irq s =
    if not s.irq_enabled then (IdList.none, s) else (s.irq_rx, record s { irq_rx = IdList.none })

-- What a request that is accepted gives: its id, and the bytes that it copied into the buffer.
pub record Accepted : Type 0 where
  pub req_id : ℕ
  pub bytes : List ℕ

-- `guard.irq_rx.insert(self.id)`, and the answer.
unfoldable pub announce : RamQueue → Accepted → RamInner → Run BlkError RamInner Accepted
announce q a s = elim (IdList.insert q.id s.irq_rx) [
  | ok u ids ↦ ok a (record s { irq_rx = ids })
  | err e ids ↦ absurd e
  | panic ↦ panic
  | out_of_fuel ↦ out_of_fuel
]

-- `submit_request` from the match on the request's kind on.
unfoldable pub transfer : RamQueue → ℕ → ℕ → RequestKind → RamInner → Run BlkError RamInner Accepted
transfer q req_id offset (read size) s =
    if ltb size q.block_size
    then err not_supported s
    else announce q (record { req_id = req_id; bytes = take q.block_size (drop offset s.storage) })
        (record s { completed_reads = s.completed_reads ++ (req_id ∷ []) })
transfer q req_id offset (write data_) s =
    if not (length data_ == q.block_size)
    then err not_supported s
    else announce q (record { req_id = req_id; bytes = [] })
        (record s {
          storage = copy offset data_ s.storage;
          completed_writes = s.completed_writes ++ (req_id ∷ []);
        })

-- The id is a `usize`, so the next one may overflow. The offset lies in the storage, if that has the
-- size of the disk.
unfoldable pub submit_request : RamQueue → Request → RamInner → Run BlkError RamInner Accepted
submit_request q request s =
    if leb q.num_blocks request.block_id
    then err (invalid_block_index request.block_id) s
    else if not (ltb (s.next_req_id + 1) (2 ^ 64))
    then panic
    else transfer q s.next_req_id (request.block_id * q.block_size) request.kind
        (record s { next_req_id = s.next_req_id + 1 })

-- `position` on a list of ids, and `Vec::remove` of what it finds.
unfoldable pub holds : ℕ → List ℕ → Bool
holds r [] = false
holds r (x ∷ xs) = if r == x then true else holds r xs

unfoldable pub remove_first : ℕ → List ℕ → List ℕ
remove_first r [] = []
remove_first r (x ∷ xs) = if r == x then xs else x ∷ remove_first r xs

unfoldable pub poll_request : ℕ → RamInner → Run BlkError RamInner (Unit {0})
poll_request r s =
    if holds r s.completed_reads
    then ok tt (record s { completed_reads = remove_first r s.completed_reads })
    else if holds r s.completed_writes
    then ok tt (record s { completed_writes = remove_first r s.completed_writes })
    else err retry s

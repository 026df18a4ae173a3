-- ===== src/Block/RamDisk/Contents.antt =====
-- driver/block/ramdisk/src/lib.rs: the disk as an array of blocks, and the life of a request.
use native.Mathlib.Nat.{add-mul}
use sparreal_os.Prelude.{
  ℕ, zero, suc, ◌+◌, ◌*◌, ◌%◌, ◌^◌, ◌≤◌, ◌<◌, ◌≡◌, ◌⊎◌, not, ◌&&◌, bit_or, refl, ap, ◌∙◌, true,
  false, ◌==◌, if◌then◌else◌, ltb, leb, List, [], ◌∷◌, ◌++◌, length, take, replicate, length-append,
  length-replicate, arith, Bool-cases, inl, inr, ==_self, lt→ltb,
}
use sparreal_os.Prelude.Outcome.{ok, err}
use sparreal_os.Block.{retry, read, write}
use sparreal_os.Block.IdList
use sparreal_os.Block.IdList.{insert_lem}
use sparreal_os.Block.RamDisk.{
  RamInner, RamDisk, RamQueue, Accepted, submit_request, transfer, announce, remove_first,
  poll_request, with_name, filled, holds, create_queue,
}
use sparreal_os.Block.RamDisk.Bytes.{copy, read-copy_self, read-copy_before, read-copy_after}
use sparreal_os.Block.RamDisk.Requests.{
  WellFormed, Once, outstanding, block, block_fits, announce_lem, holds-remove_first,
  Once-remove_first,
}

module _ (q : RamQueue) where
  -- The state after an accepted write, and after an accepted read.
  abbrev pub written : ℕ → List ℕ → RamInner → RamInner
  written b data_ s = record s {
    storage = copy (b * q.block_size) data_ s.storage;
    completed_writes = s.completed_writes ++ (s.next_req_id ∷ []);
    irq_rx = bit_or s.irq_rx (2 ^ q.id);
    next_req_id = s.next_req_id + 1;
  }

  abbrev pub was_read : RamInner → RamInner
  was_read s = record s {
    completed_reads = s.completed_reads ++ (s.next_req_id ∷ []);
    irq_rx = bit_or s.irq_rx (2 ^ q.id);
    next_req_id = s.next_req_id + 1;
  }

  submit_write :
      (b : ℕ) (data_ : List ℕ) (s : RamInner)
      → WellFormed q s
      → s.next_req_id + 1 < 2 ^ 64
      → b < q.num_blocks
      → length data_ ≡ q.block_size
      → submit_request q (record { block_id = b; kind = write data_ }) s
        ≡ ok (record { req_id = s.next_req_id; bytes = [] }) (written b data_ s)
  unfolding submit_request transfer
  submit_write b data_ s wf left h whole =
      let inside : leb q.num_blocks b ≡ false = ground arith in
      rw
        (
          inside,
          lt→ltb _ _ left,
          whole,
          ==_self q.block_size,
          announce_lem q s wf (record { req_id = s.next_req_id; bytes = [] }),
        )
        refl

  submit_read :
      (b size : ℕ) (s : RamInner)
      → q.id < 64
      → s.next_req_id + 1 < 2 ^ 64
      → b < q.num_blocks
      → q.block_size ≤ size
      → submit_request q (record { block_id = b; kind = read size }) s
        ≡ ok (record { req_id = s.next_req_id; bytes = block q b s }) (was_read s)
  unfolding submit_request transfer announce
  submit_read b size s small left h room =
      let inside : leb q.num_blocks b ≡ false = ground arith in
      let fits : ltb size q.block_size ≡ false = ground arith in
      rw (inside, lt→ltb _ _ left, fits, announce, insert_lem q.id s.irq_rx small) refl

  block-written :
      (b b' : ℕ) (data_ : List ℕ) (s : RamInner)
      → WellFormed q s
      → b < q.num_blocks
      → length data_ ≡ q.block_size
      → block q b' (written b data_ s) ≡ (if b' == b then data_ else block q b' s)
  block-written b b' data_ s wf h whole = elim (Bool-cases (b' == b)) [
    | inl e ↦
        let at : b' ≡ b = ground arith in
        let fits = block_fits b q.num_blocks q.block_size h in
        rw (e, at, ← whole)
          (read-copy_self (b * length data_) data_ s.storage
            (omega (arith, wf.sized, fits, ap (λ n. b * n) whole)))
    | inr e ↦ elim (Bool-cases (ltb b' b)) [
      | inl lo ↦
          let before = block_fits b' b q.block_size (ground arith) in
          rw e (
            read-copy_before (b' * q.block_size) (b * q.block_size) q.block_size data_ s.storage
              before)
      | inr hi ↦
          let after = block_fits b b' q.block_size (ground arith) in
          rw e (
            ap (take q.block_size) (
              read-copy_after (b' * q.block_size) (b * q.block_size) data_ s.storage (omega arith)))
    ]
  ]

  -- A block of the right size is written and then any block is read, on a well-formed disk of the
  -- queue's size, by a queue of an id below 64 and while the ids of requests last: both requests are
  -- accepted, and the read gives the bytes written, if it is of that block, and else what the block
  -- held before.
  pub write-read :
      (b b' size : ℕ) (data_ : List ℕ) (s : RamInner)
      → WellFormed q s
      → s.next_req_id + 2 < 2 ^ 64
      → b < q.num_blocks
      → b' < q.num_blocks
      → length data_ ≡ q.block_size
      → q.block_size ≤ size
      → (a a' : Accepted) × (s₁ s₂ : RamInner) × (submit_request q
            (record { block_id = b; kind = write data_ })
            s
          ≡ ok a s₁)
        × (submit_request q (record { block_id = b'; kind = read size }) s₁ ≡ ok a' s₂)
        × (a'.bytes ≡ (if b' == b then data_ else block q b' s))
  write-read b b' size data_ s wf left h h' whole room = (
    record { req_id = s.next_req_id; bytes = [] },
    record { req_id = s.next_req_id + 1; bytes = block q b' (written b data_ s) },
    written b data_ s,
    was_read (written b data_ s),
    submit_write b data_ s wf (omega arith) h whole,
    submit_read b' size (written b data_ s) wf.nameable (omega arith) h' room,
    block-written b b' data_ s wf h whole,
  )

  -- `s'` is `s` without one of the requests that wait.
  pub record TakenOut (r : ℕ) (s s' : RamInner) : Type 0 where
    pub well_formed : WellFormed q s'
    pub waits : (j : ℕ) → outstanding j s' ≡ (outstanding j s && not (j == r))
    pub storage : s'.storage ≡ s.storage
    pub irq_rx : s'.irq_rx ≡ s.irq_rx
    pub next_req_id : s'.next_req_id ≡ s.next_req_id

  read_polled :
      (r : ℕ) (s : RamInner)
      → WellFormed q s
      → holds r s.completed_reads ≡ true
      → TakenOut r s (record s { completed_reads = remove_first r s.completed_reads })
  read_polled r s wf there =
      let left = λ (j : ℕ). holds-remove_first j r s.completed_reads wf.reads_once in
      let clear = wf.apart r there in
      record {
        well_formed = record {
          nameable = wf.nameable;
          sized = wf.sized;
          reads_old = λ j h. let at = left j in wf.reads_old j (ground arith);
          writes_old = wf.writes_old;
          reads_once = Once-remove_first r s.completed_reads wf.reads_once;
          writes_once = wf.writes_once;
          apart = λ j h. let at = left j in wf.apart j (ground arith);
        };
        waits = λ j. rw (left j) (elim (Bool-cases (j == r)) [
          | inl e ↦ let same : j ≡ r = ground arith in rw (e, same, clear) (ground arith)
          | inr e ↦ rw e (ground arith)
        ]);
        storage = refl;
        irq_rx = refl;
        next_req_id = refl;
      }

  write_polled :
      (r : ℕ) (s : RamInner)
      → WellFormed q s
      → holds r s.completed_reads ≡ false
      → TakenOut r s (record s { completed_writes = remove_first r s.completed_writes })
  write_polled r s wf not_there =
      let left = λ (j : ℕ). holds-remove_first j r s.completed_writes wf.writes_once in
      record {
        well_formed = record {
          nameable = wf.nameable;
          sized = wf.sized;
          reads_old = wf.reads_old;
          writes_old = λ j h. let at = left j in wf.writes_old j (ground arith);
          reads_once = wf.reads_once;
          writes_once = Once-remove_first r s.completed_writes wf.writes_once;
          apart = λ j h. let at = left j in let clear = wf.apart j h in ground arith;
        };
        waits = λ j. rw (left j) (elim (Bool-cases (j == r)) [
          | inl e ↦ let same : j ≡ r = ground arith in rw (e, same, not_there) (ground arith)
          | inr e ↦ rw e (ground arith)
        ]);
        storage = refl;
        irq_rx = refl;
        next_req_id = refl;
      }

  -- On a well-formed disk a poll for a request that does not wait is told to retry. A poll for one
  -- that waits is answered, and the disk stays well formed: exactly this request waits no longer, so
  -- another poll for it is told to retry, and the blocks and announced queues are as before.
  pub poll_request-once :
      (r : ℕ) (s : RamInner)
      → WellFormed q s
      → (outstanding r s ≡ false) × (poll_request r s ≡ err retry s)
        ⊎ (outstanding r s ≡ true)
          × (s' : RamInner) × (poll_request r s ≡ ok tt s')
          × TakenOut r s s'
          × (poll_request r s' ≡ err retry s')
  unfolding poll_request
  poll_request-once r s wf = elim (Bool-cases (holds r s.completed_reads)) [
    | inl e ↦
        let clear = wf.apart r e in
        let gone = holds-remove_first r r s.completed_reads wf.reads_once in
        let left : holds r (remove_first r s.completed_reads) ≡ false =
          gone ∙ rw (==_self r) (ground arith) in
        inr (rw e refl, _, rw e refl, read_polled r s wf e, rw (left, clear) refl)
    | inr e ↦ elim (Bool-cases (holds r s.completed_writes)) [
      | inl e' ↦
          let gone = holds-remove_first r r s.completed_writes wf.writes_once in
          let left : holds r (remove_first r s.completed_writes) ≡ false =
            gone ∙ rw (==_self r) (ground arith) in
          inr (rw (e, e') refl, _, rw (e, e') refl, write_polled r s wf e, rw (e, left) refl)
      | inr e' ↦ inl (rw (e, e') refl, rw (e, e') refl)
    ]
  ]

length-filled : (size i n : ℕ) → length (filled size i n) ≡ n * size
unfolding filled
length-filled size i zero = omega arith
length-filled size i (suc n) = omega (
  arith,
  length-append (replicate size (i % 2 ^ 8)) (filled size (suc i) n),
  length-replicate size (i % 2 ^ 8),
  length-filled size (suc i) n,
  add-mul 1 n size,
)

-- A new disk takes requests: each queue made from it finds a storage of its size and no request
-- outstanding.
with_name-WellFormed :
    (block_size num_blocks : ℕ)
    → 0 < block_size
    → (d : RamDisk) × (with_name block_size num_blocks ≡ ok d d.inner)
      × WellFormed (create_queue d).0 (create_queue d).1.inner
      × ((create_queue d).0.num_blocks ≡ num_blocks)
      × ((create_queue d).0.block_size ≡ block_size)
unfolding with_name create_queue holds Once
with_name-WellFormed block_size num_blocks pos = (
  record {
    block_size = block_size;
    num_blocks = num_blocks;
    inner = record {
      storage = filled block_size 0 num_blocks;
      completed_reads = [];
      completed_writes = [];
      irq_rx = IdList.none;
      irq_enabled = true;
      next_req_id = 1;
      next_queue_id = 0;
    };
  },
  rw (lt→ltb 0 block_size pos),
  record {
    nameable = omega arith;
    sized = length-filled block_size 0 num_blocks;
    reads_old = λ r h. ground arith;
    writes_old = λ r h. ground arith;
    reads_once = tt;
    writes_once = tt;
    apart = λ r h. ground arith;
  },
  refl,
  refl,
)

-- ===== src/Block/RamDisk/Requests.antt =====
-- driver/block/ramdisk/src/lib.rs: what a request does to the blocks, and how its id is polled.
use native.Mathlib.Nat.{mul-le-mul_right, add-mul}
use sparreal_os.Prelude.{
  ℕ, suc, ◌+◌, ◌*◌, ◌≤◌, ◌<◌, ◌^◌, ◌≡◌, refl, Bool, not, ◌&&◌, bit_or, lt→ltb, ◌∙◌, true, false,
  ◌||◌, ◌==◌, ltb, leb, List, [], ◌∷◌, ◌++◌, length, take, drop, arith, Bool-cases, inl, inr,
  ==_self,
}
use sparreal_os.Prelude.Outcome.{ok, Ensures, returns, fails}
use sparreal_os.Block.{Request, RequestKind, read, write}
use sparreal_os.Block.IdList
use sparreal_os.Block.IdList.{insert_lem, contains-set, contains-kept}
use sparreal_os.Block.RamDisk.{
  RamInner, RamQueue, Accepted, submit_request, transfer, announce, holds, remove_first,
}
use sparreal_os.Block.RamDisk.Bytes.{copy, length-copy}

-- The bytes of a block.
abbrev pub block : RamQueue → ℕ → RamInner → List ℕ
block q b s = take q.block_size (drop (b * q.block_size) s.storage)

-- No id stands twice.
unfoldable pub Once : List ℕ → Type 0
Once [] = Unit
Once (x ∷ xs) = (holds x xs ≡ false) × Once xs

-- A request waits to be polled.
abbrev pub outstanding : ℕ → RamInner → Bool
outstanding r s = holds r s.completed_reads || holds r s.completed_writes

-- A disk and a queue of the first 64, which an event can name.
pub record WellFormed (q : RamQueue) (s : RamInner) : Type 0 where
  pub nameable : q.id < 64
  pub sized : length s.storage ≡ q.num_blocks * q.block_size
  -- Ids that wait to be polled have been given out.
  pub reads_old : (r : ℕ) → holds r s.completed_reads ≡ true → r < s.next_req_id
  pub writes_old : (r : ℕ) → holds r s.completed_writes ≡ true → r < s.next_req_id
  -- Each waits once.
  pub reads_once : Once s.completed_reads
  pub writes_once : Once s.completed_writes
  pub apart : (r : ℕ) → holds r s.completed_reads ≡ true → holds r s.completed_writes ≡ false

pub holds-append : (r x : ℕ) (xs : List ℕ) → holds r (xs ++ x ∷ []) ≡ (holds r xs || r == x)
unfolding holds
holds-append r x [] = ground arith
holds-append r x (y ∷ ys) = let ih = holds-append r x ys in ground arith

Once-append : (x : ℕ) (xs : List ℕ) → holds x xs ≡ false → Once xs → Once (xs ++ x ∷ [])
unfolding Once holds
Once-append x [] h o = (refl, tt)
Once-append x (y ∷ ys) h (new, o) =
    let at = holds-append y x ys in (ground arith, Once-append x ys (ground arith) o)

pub holds-remove_first :
    (j r : ℕ) (xs : List ℕ) → Once xs → holds j (remove_first r xs) ≡ (holds j xs && not (j == r))
unfolding holds remove_first Once
holds-remove_first j r [] o = refl
holds-remove_first j r (x ∷ xs) (new, o) = elim (Bool-cases (r == x)) [
  | inl e ↦ ground arith
  | inr e ↦ let ih = holds-remove_first j r xs o in ground arith
]

pub Once-remove_first : (r : ℕ) (xs : List ℕ) → Once xs → Once (remove_first r xs)
unfolding remove_first Once
Once-remove_first r [] o = tt
Once-remove_first r (x ∷ xs) (new, o) = elim (Bool-cases (r == x)) [
  | inl e ↦ rw e o
  | inr e ↦ let kept = holds-remove_first x r xs o in rw e (ground arith, Once-remove_first r xs o)
]

-- A block lies within the disk.
pub block_fits : (b n size : ℕ) → b < n → b * size + size ≤ n * size
block_fits b n size h =
    let all = mul-le-mul_right {m = suc b} {n = n} size (omega arith) in
    omega (arith, all, add-mul 1 b size)

still_old :
    (xs : List ℕ) (next : ℕ)
    → ((r : ℕ) → holds r xs ≡ true → r < next)
    → (r : ℕ) → holds r xs ≡ true
    → r < next + 1
still_old xs next old r h = omega (arith, old r h)

appended_old :
    (xs : List ℕ) (next : ℕ)
    → ((r : ℕ) → holds r xs ≡ true → r < next)
    → (r : ℕ) → holds r (xs ++ next ∷ []) ≡ true
    → r < next + 1
appended_old xs next old r h = elim (Bool-cases (holds r xs)) [
  | inl e ↦ omega (arith, old r e)
  | inr e ↦ let at = holds-append r next xs in ground arith
]

module _ (q : RamQueue) (s : RamInner) (wf : WellFormed q s) where
  -- What a queue promises of a request that it accepts.
  pub record Served (request : Request) (a : Accepted) (s' : RamInner) : Type 0 where
    pub well_formed : WellFormed q s'
    pub in_range : request.block_id < q.num_blocks
    pub fresh : outstanding a.req_id s ≡ false
    pub waits : (r : ℕ) → outstanding r s' ≡ (outstanding r s || r == a.req_id)
    pub announced : IdList.contains q.id s'.irq_rx ≡ ok true s'.irq_rx
    pub others_announced :
        (j : ℕ)
        → IdList.contains j s.irq_rx ≡ ok true s.irq_rx
        → IdList.contains j s'.irq_rx ≡ ok true s'.irq_rx

  -- A request that is refused leaves the storage and the completions alone, but may use up an id.
  pub record Refused (s' : RamInner) : Type 0 where
    pub well_formed : WellFormed q s'
    pub storage : s'.storage ≡ s.storage
    pub reads : s'.completed_reads ≡ s.completed_reads
    pub writes : s'.completed_writes ≡ s.completed_writes
    pub irq_rx : s'.irq_rx ≡ s.irq_rx

  pub not_held :
      (xs : List ℕ)
      → ((r : ℕ) → holds r xs ≡ true → r < s.next_req_id)
      → holds s.next_req_id xs ≡ false
  not_held xs old = elim (Bool-cases (holds s.next_req_id xs)) [
    | inl e ↦ absurd (omega (arith, old s.next_req_id e))
    | inr e ↦ e
  ]

  -- The state in which the queue is announced.
  abbrev pub with_event : RamInner → RamInner
  with_event s' = record s' { irq_rx = bit_or s'.irq_rx (2 ^ q.id) }

  pub announce_lem : (a : Accepted) (s' : RamInner) → announce q a s' ≡ ok a (with_event s')
  unfolding announce
  announce_lem a s' = rw (announce, insert_lem q.id s'.irq_rx wf.nameable) refl

  announced :
      IdList.contains q.id (bit_or s.irq_rx (2 ^ q.id)) ≡ ok true (bit_or s.irq_rx (2 ^ q.id))
  announced = contains-set s.irq_rx q.id q.id wf.nameable (==_self q.id)

  no_read : holds s.next_req_id s.completed_reads ≡ false
  no_read = not_held s.completed_reads wf.reads_old

  no_write : holds s.next_req_id s.completed_writes ≡ false
  no_write = not_held s.completed_writes wf.writes_old

  used_id : WellFormed q (record s { next_req_id = s.next_req_id + 1 })
  used_id = record {
    nameable = wf.nameable;
    sized = wf.sized;
    reads_old = still_old s.completed_reads s.next_req_id wf.reads_old;
    writes_old = still_old s.completed_writes s.next_req_id wf.writes_old;
    reads_once = wf.reads_once;
    writes_once = wf.writes_once;
    apart = wf.apart;
  }

  abbrev read_done : RamInner
  read_done = record s {
    next_req_id = s.next_req_id + 1;
    completed_reads = s.completed_reads ++ (s.next_req_id ∷ []);
    irq_rx = bit_or s.irq_rx (2 ^ q.id);
  }

  abbrev write_done : ℕ → List ℕ → RamInner
  write_done offset data_ = record s {
    next_req_id = s.next_req_id + 1;
    storage = copy offset data_ s.storage;
    completed_writes = s.completed_writes ++ (s.next_req_id ∷ []);
    irq_rx = bit_or s.irq_rx (2 ^ q.id);
  }

  read-Served :
      (request : Request) (bytes : List ℕ)
      → request.block_id < q.num_blocks
      → Served request (record { req_id = s.next_req_id; bytes = bytes }) read_done
  read-Served request bytes h = record {
    well_formed = record {
      nameable = wf.nameable;
      sized = wf.sized;
      reads_old = appended_old s.completed_reads s.next_req_id wf.reads_old;
      writes_old = still_old s.completed_writes s.next_req_id wf.writes_old;
      reads_once = Once-append s.next_req_id s.completed_reads no_read wf.reads_once;
      writes_once = wf.writes_once;
      apart = λ r there.
          let at = holds-append r s.next_req_id s.completed_reads in
          elim (Bool-cases (holds r s.completed_reads)) [
            | inl e ↦ wf.apart r e
            | inr e ↦ let same : r ≡ s.next_req_id = ground arith in rw same no_write
          ];
    };
    in_range = h;
    fresh = rw (no_read, no_write) refl;
    waits = λ r. rw (holds-append r s.next_req_id s.completed_reads) (ground arith);
    announced = announced;
    others_announced = λ j there. contains-kept s.irq_rx q.id j there;
  }

  write-Served :
      (request : Request) (offset : ℕ) (data_ : List ℕ)
      → request.block_id < q.num_blocks
      → Served request (record { req_id = s.next_req_id; bytes = [] }) (write_done offset data_)
  write-Served request offset data_ h = record {
    well_formed = record {
      nameable = wf.nameable;
      sized = length-copy offset data_ s.storage ∙ wf.sized;
      reads_old = still_old s.completed_reads s.next_req_id wf.reads_old;
      writes_old = appended_old s.completed_writes s.next_req_id wf.writes_old;
      reads_once = wf.reads_once;
      writes_once = Once-append s.next_req_id s.completed_writes no_write wf.writes_once;
      apart = λ r there.
          let old = wf.reads_old r there in
          let clear = wf.apart r there in
          rw (holds-append r s.next_req_id s.completed_writes) (ground arith);
    };
    in_range = h;
    fresh = rw (no_read, no_write) refl;
    waits = λ r. rw (holds-append r s.next_req_id s.completed_writes) (ground arith);
    announced = announced;
    others_announced = λ j there. contains-kept s.irq_rx q.id j there;
  }

  refused : Refused (record s { next_req_id = s.next_req_id + 1 })
  refused = record {
    well_formed = used_id;
    storage = refl;
    reads = refl;
    writes = refl;
    irq_rx = refl;
  }

  -- On a well-formed disk, for a queue of an id below 64 and while the ids of requests last, every
  -- request is served or refused without panic. An accepted request has a fresh id, which waits to be
  -- polled besides those that waited before, and announces the queue besides those announced. A
  -- refused one changes no block, completes nothing and announces nothing. Both keep the disk well
  -- formed.
  pub submit_request-Served :
      (request : Request)
      → s.next_req_id + 1 < 2 ^ 64
      → Ensures (Served request) (λ _. Refused) (submit_request q request s)
  unfolding submit_request transfer
  submit_request-Served request room = elim (Bool-cases (leb q.num_blocks request.block_id)) [
    | inl e ↦ rw e (
        fails
          (record { well_formed = wf; storage = refl; reads = refl; writes = refl; irq_rx = refl }))
    | inr e ↦ rw (e, lt→ltb _ _ room) (served request.kind (ground arith))
  ]
    where
      served :
          (kind : RequestKind)
          → request.block_id < q.num_blocks
          → Ensures
              (Served request)
              (λ _. Refused)
              (transfer q s.next_req_id
                (request.block_id * q.block_size)
                kind
                (record s { next_req_id = s.next_req_id + 1 }))
      served (read size) h = elim (Bool-cases (ltb size q.block_size)) [
        | inl e ↦ rw e (fails refused)
        | inr e ↦
            let offset = request.block_id * q.block_size in
            rw (e, announce_lem)
              (returns (read-Served request (take q.block_size (drop offset s.storage)) h))
      ]
      served (write data_) h = elim (Bool-cases (length data_ == q.block_size)) [
        | inr e ↦ rw e (fails refused)
        | inl e ↦
            rw (e, announce_lem)
              (returns (write-Served request (request.block_id * q.block_size) data_ h))
      ]

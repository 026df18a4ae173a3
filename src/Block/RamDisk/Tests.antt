-- ===== src/Block/RamDisk/Tests.antt =====
-- The theorems on the RAM disk at a disk of three blocks of two bytes.
use sparreal_os.Prelude.{
  ℕ, Bool, false, ◌⊎◌, ◌≡◌, refl, true, ◌||◌, ◌==◌, if◌then◌else◌, [], ◌∷◌, arith,
}
use sparreal_os.Prelude.Outcome.{ok, err, Ensures}
use sparreal_os.Block.{read, write, retry}
use sparreal_os.Block.IdList.{contains, insert, contains-insert}
use sparreal_os.Block.RamDisk.{RamInner, RamQueue, Accepted, submit_request, poll_request, holds}
use sparreal_os.Block.RamDisk.Contents.{TakenOut, write-read, poll_request-once}
use sparreal_os.Block.RamDisk.Requests.{
  WellFormed, Once, outstanding, Served, Refused, block, submit_request-Served,
}

abbrev queue : RamQueue
queue = record { id = 0; block_size = 2; num_blocks = 3 }

abbrev disk : RamInner
disk = record {
  storage = 0 ∷ 0 ∷ 1 ∷ 1 ∷ 2 ∷ 2 ∷ [];
  completed_reads = [];
  completed_writes = [];
  irq_rx = 0;
  irq_enabled = true;
  next_req_id = 1;
  next_queue_id = 1;
}

-- The request 1 has been read and waits.
abbrev waiting : RamInner
waiting = record disk { completed_reads = 1 ∷ []; next_req_id = 2 }

disk-WellFormed : WellFormed queue disk
unfolding holds Once
disk-WellFormed = record {
  nameable = omega arith;
  sized = refl;
  reads_old = λ r h. ground arith;
  writes_old = λ r h. ground arith;
  reads_once = tt;
  writes_once = tt;
  apart = λ r h. ground arith;
}

waiting-WellFormed : WellFormed queue waiting
unfolding holds Once
waiting-WellFormed = record {
  nameable = omega arith;
  sized = refl;
  reads_old = λ r h. ground arith;
  writes_old = λ r h. ground arith;
  reads_once = (refl, tt);
  writes_once = tt;
  apart = λ r h. refl;
}

contains-insert_example :
    (ids' : ℕ) × (b : Bool) × (insert 3 4 ≡ ok tt ids')
    × (contains 2 4 ≡ ok b 4)
    × (contains 2 ids' ≡ ok (3 == 2 || b) ids')
contains-insert_example = contains-insert 4 3 2 (omega arith) (omega arith)

submit_request-Served_example :
    Ensures
      (Served queue disk disk-WellFormed (record { block_id = 1; kind = write (7 ∷ 8 ∷ []) }))
      (λ _. Refused queue disk disk-WellFormed)
      (submit_request queue (record { block_id = 1; kind = write (7 ∷ 8 ∷ []) }) disk)
submit_request-Served_example =
    submit_request-Served queue disk disk-WellFormed
      (record { block_id = 1; kind = write (7 ∷ 8 ∷ []) }) (omega arith)

write-read_example :
    (a a' : Accepted) × (s₁ s₂ : RamInner) × (submit_request queue
        (record { block_id = 1; kind = write (7 ∷ 8 ∷ []) })
        disk
      ≡ ok a s₁)
    × (submit_request queue (record { block_id = 1; kind = read 2 }) s₁ ≡ ok a' s₂)
    × (a'.bytes ≡ (if 1 == 1 then 7 ∷ 8 ∷ [] else block queue 1 disk))
write-read_example =
    write-read queue 1 1 2 (7 ∷ 8 ∷ []) disk disk-WellFormed (omega arith) (omega arith)
      (omega arith) refl (omega arith)

poll_request-once_example :
    (outstanding 1 waiting ≡ false) × (poll_request 1 waiting ≡ err retry waiting)
    ⊎ (outstanding 1 waiting ≡ true)
      × (s' : RamInner) × (poll_request 1 waiting ≡ ok tt s')
      × TakenOut queue 1 waiting s'
      × (poll_request 1 s' ≡ err retry s')
poll_request-once_example = poll_request-once queue 1 waiting waiting-WellFormed

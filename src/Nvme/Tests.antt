-- ===== src/Nvme/Tests.antt =====
-- The theorems on the NVMe queues at rings of two and three entries.
use sparreal_os.Prelude.{
  ℕ, ◌+◌, ◌/◌, ◌%◌, ◌^◌, ◌≡◌, refl, Bool, true, false, not, ◌==◌, if◌then◌else◌, some, [], ◌∷◌,
  get_elem?, arith,
}
use sparreal_os.Prelude.Outcome.{ok, err}
use sparreal_os.Nvme.Commands.{nvm_cmd_read, nvm_cmd_write, queue_cdw10, zeroed}
use sparreal_os.Nvme.Encoding.{
  starting_lba_of, opcode_of, command_id_of, transfer_lem, queue_cdw10_lem,
}
use sparreal_os.Nvme.Queues.{
  NvmeCompletion, NvmeQueue, command_sync, is_success, phase_of, unknown, cq_head, sq_tail,
}
use sparreal_os.Nvme.Ring.{ring, odd_round, Phased}
use sparreal_os.Nvme.Service.{Serves, Ready, command_sync_lem}

transfer_lem_example :
    let read = nvm_cmd_read 1 4096 0x1_2345_6789 8 7 in
    let write = nvm_cmd_write 1 4096 0x1_2345_6789 8 7 in
    (starting_lba_of read ≡ 0x1_2345_6789)
    × (opcode_of read ≡ 2)
    × (command_id_of read ≡ 7)
    × (read.nsid ≡ 1)
    × (read.prp1 ≡ 4096)
    × (starting_lba_of write ≡ 0x1_2345_6789)
    × (opcode_of write ≡ 1)
    × (command_id_of write ≡ 7)
    × (write.nsid ≡ 1)
    × (write.prp1 ≡ 4096)
transfer_lem_example = transfer_lem 1 4096 0x1_2345_6789 8 7 (omega arith) (omega arith)

queue_cdw10_lem_example : (queue_cdw10 3 64 % 2 ^ 16 ≡ 3) × (queue_cdw10 3 64 / 2 ^ 16 + 1 ≡ 64)
queue_cdw10_lem_example = queue_cdw10_lem 3 64 (omega arith) (omega arith) (omega arith)

-- Completions that succeed, with the phase of their round on a ring of two.
abbrev entry : ℕ → NvmeCompletion
entry n = record {
  result = n;
  sq_head = 0;
  sq_id = 1;
  command_id = n;
  status = if odd_round 2 n then 0 else 1;
}

phase_of_flag : (b : Bool) → phase_of (if b then 0 else 1) ≡ not b
unfolding phase_of
phase_of_flag true = refl
phase_of_flag false = refl

entry-Phased : Phased 2 (omega arith) entry
entry-Phased n = phase_of_flag (odd_round 2 n)

abbrev queue : NvmeQueue
queue = record {
  qid = 1;
  sq = record { queue = zeroed ∷ zeroed ∷ zeroed ∷ []; tail = 2 };
  cq = record { head = 1; phase = false };
  doorbells = [];
}

queue-Ready : Ready 2 (omega arith) entry entry-Phased 1 queue
unfolding odd_round
queue-Ready = record {
  room = omega arith;
  small = omega arith;
  taken = record { head = refl; phase = refl };
}

-- The device posts completion 1 before the second poll.
abbrev posted : ℕ → ℕ
posted k = if k == 0 then 1 else 2

polls-Serves : Serves 2 (omega arith) entry entry-Phased 1 3 (λ k. ring 2 entry (posted k))
polls-Serves = record {
  posted = posted;
  seen = λ k. refl;
  waiting = λ k. ground arith;
  time = 1;
  in_time = omega arith;
  served = refl;
}

command_sync_lem_example :
    (q' : NvmeQueue) × (command_sync 3
        (λ k. ring 2 entry (posted k))
        (nvm_cmd_read 1 4096 5 0 0)
        queue
      ≡ (if is_success (entry 1).status then ok tt q' else err (unknown "send command failed") q'))
    × Ready 2 (omega arith) entry entry-Phased 2 q'
    × (get_elem? q'.sq.queue 2 ≡ some (nvm_cmd_read 1 4096 5 0 0))
    × (q'.sq.tail ≡ (2 + 1) % 3)
    × (q'.doorbells ≡ cq_head 1 (2 % 2) ∷ sq_tail 1 q'.sq.tail ∷ [])
command_sync_lem_example =
    command_sync_lem 2 (omega arith) entry entry-Phased 1 3 (λ k. ring 2 entry (posted k))
      (nvm_cmd_read 1 4096 5 0 0) queue (omega arith) queue-Ready polls-Serves

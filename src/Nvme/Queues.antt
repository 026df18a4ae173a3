-- ===== src/Nvme/Queues.antt =====
-- driver/block/nvme/src/queue.rs: the submission and the completion ring of a queue, and a command
-- with its completion. The device writes the completion ring; each poll reads what the ring holds
-- at that moment, so a run takes the contents poll by poll.
use Prim.Native.String.{String}
use sparreal_os.Prelude.{
  ℕ, zero, suc, ◌+◌, ◌%◌, bit_and, Bool, true, false, not, ◌==◌, if◌then◌else◌, ltb, leb, Option,
  none, some, List, ◌∷◌, length, set, get_elem?,
}
use sparreal_os.Prelude.Outcome.{Run, ok, err, panic, out_of_fuel}
use sparreal_os.Nvme.Commands.{CommandSet, u32_mod}

pub record NvmeCompletion : Type 0 where
  pub result : ℕ
  pub sq_head : ℕ
  pub sq_id : ℕ
  pub command_id : ℕ
  pub status : ℕ

-- `CompletionStatus::phase` and `CompletionStatus::is_success`.
unfoldable pub phase_of : ℕ → Bool
phase_of status = ltb 0 (bit_and status 1)

unfoldable pub is_success : ℕ → Bool
is_success status = bit_and status 2 == 0

pub record SubmitQueue : Type 0 where
  pub queue : List CommandSet
  pub tail : ℕ

-- The driver's side of the completion ring.
pub record CompleteQueue : Type 0 where
  pub head : ℕ
  pub phase : Bool

-- The writes of `write_sq_y_tail_doolbell` and `write_cq_y_head_doolbell`.
pub data Doorbell : Type 0 where
  sq_tail cq_head : (qid value : ℕ) → Doorbell

pub record NvmeQueue : Type 0 where
  pub qid : ℕ
  pub sq : SubmitQueue
  pub cq : CompleteQueue
  -- The latest first.
  pub doorbells : List Doorbell

pub data Error : Type 0 where
  no_memory layout : Error
  unknown : String → Error

-- `SubmitQueue::submit`, with the tail that it returns; `none` is the panic of `DArray::set`.
unfoldable pub submit : CommandSet → SubmitQueue → Option (ℕ × SubmitQueue)
submit data_ sq =
    let tail = if leb (length sq.queue % u32_mod) (sq.tail + 1) then 0 else sq.tail + 1 in
    if ltb sq.tail (length sq.queue)
    then some (tail, record { queue = set sq.queue sq.tail data_; tail = tail })
    else none

-- `!=` on `bool`.
abbrev pub differ : Bool → Bool → Bool
differ true b = not b
differ false b = b

unfoldable pub complete : List NvmeCompletion → CompleteQueue → Option NvmeCompletion
complete queue cq = elim (get_elem? queue cq.head) [
  | none ↦ none
  | some cqe ↦ if differ (phase_of cqe.status) cq.phase then some cqe else none
]

-- The head and the phase after a completion is taken.
unfoldable pub advance : ℕ → CompleteQueue → CompleteQueue
advance len cq =
    if leb (len % u32_mod) (cq.head + 1)
    then record { head = 0; phase = not cq.phase }
    else record cq { head = cq.head + 1 }

unfoldable pub spin_for_complete :
    (rounds : ℕ) (polls : ℕ → List NvmeCompletion)
    → CompleteQueue
    → Option (NvmeCompletion × CompleteQueue)
spin_for_complete zero polls cq = none
spin_for_complete (suc rounds) polls cq =
    let rest = spin_for_complete rounds (λ k. polls (suc k)) cq in
    elim (complete (polls 0) cq) [
      | none ↦ rest
      | some cqe ↦ some (cqe, advance (length (polls 0)) cq)
    ]

unfoldable pub command_sync :
    (rounds : ℕ) (polls : ℕ → List NvmeCompletion)
    → CommandSet
    → NvmeQueue
    → Run Error NvmeQueue (Unit {0})
command_sync rounds polls data_ q = elim (submit data_ q.sq) [
  | none ↦ panic
  | some (tail, sq) ↦ elim (spin_for_complete rounds polls q.cq) [
    | none ↦ out_of_fuel
    | some (cqe, cq) ↦
        let q' = record q {
          sq = sq;
          cq = cq;
          doorbells = cq_head q.qid cq.head ∷ sq_tail q.qid tail ∷ q.doorbells;
        } in
        if is_success cqe.status then ok tt q' else err (unknown "send command failed") q'
  ]
]

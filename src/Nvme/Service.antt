-- ===== src/Nvme/Service.antt =====
-- driver/block/nvme/src/queue.rs: `NvmeQueue::command_sync` against a device that posts its
-- completions one after the other.
use native.Mathlib.Nat.{mod-eq_of_lt, mod-lt, mod_self}
use sparreal_os.Prelude.{
  ℕ, zero, suc, ◌+◌, ◌-◌, ◌%◌, ◌<◌, ◌≡◌, refl, ap, ◌∙◌, ◌⊎◌, inl, inr, ◌==◌, if◌then◌else◌, leb,
  some, List, ◌∷◌, length, set, get_elem?, length-set, get_elem?-set_self, arith, Bool-cases,
  lt→ltb,
}
use sparreal_os.Prelude.Outcome.{ok, err}
use sparreal_os.Nvme.Commands.{CommandSet, u32_mod}
use sparreal_os.Nvme.Queues.{
  NvmeCompletion, CompleteQueue, SubmitQueue, NvmeQueue, sq_tail, cq_head, unknown, submit,
  spin_for_complete, advance, command_sync, is_success,
}
use sparreal_os.Nvme.Ring.{
  ring, length-ring, Phased, Taken, complete-none, complete-some, advance-Taken,
}

module _ (len : ℕ) (pos : 0 < len) (entry : ℕ → NvmeCompletion)
    (phased : Phased len pos entry) where
  -- While the driver waits for completion `p`, each poll sees the ring before it or after it, and
  -- one of the first `rounds` polls sees it.
  pub record Serves (p rounds : ℕ) (polls : ℕ → List NvmeCompletion) : Type 0 where
    pub posted : ℕ → ℕ
    pub seen : (k : ℕ) → polls k ≡ ring len entry (posted k)
    pub waiting : (k : ℕ) → (posted k ≡ p) ⊎ (posted k ≡ suc p)
    pub time : ℕ
    pub in_time : time < rounds
    pub served : posted time ≡ suc p

  -- The queue between two commands, after `p` completions.
  pub record Ready (p : ℕ) (q : NvmeQueue) : Type 0 where
    pub room : q.sq.tail < length q.sq.queue
    pub small : length q.sq.queue < u32_mod
    pub taken : Taken len pos p q.cq

  later :
      (p rounds : ℕ) (polls : ℕ → List NvmeCompletion) (s : Serves p (suc rounds) polls)
      → s.posted 0 ≡ p
      → Serves p rounds (λ k. polls (suc k))
  later p rounds polls s none_yet = elim (Bool-cases (s.time == 0)) [
    | inl e ↦ let at : s.time ≡ 0 = ground arith in absurd (omega (arith, ap s.posted at, s.served))
    | inr e ↦
        let at : suc (s.time - 1) ≡ s.time = ground arith in
        record {
          posted = λ k. s.posted (suc k);
          seen = λ k. s.seen (suc k);
          waiting = λ k. s.waiting (suc k);
          time = s.time - 1;
          in_time = omega (arith, s.in_time);
          served = ap s.posted at ∙ s.served;
        }
  ]

  spin_for_complete_lem :
      (p rounds : ℕ) (polls : ℕ → List NvmeCompletion) (cq : CompleteQueue)
      → Taken len pos p cq
      → Serves p rounds polls
      → spin_for_complete rounds polls cq ≡ some (entry p, advance len cq)
  unfolding spin_for_complete
  spin_for_complete_lem p zero polls cq taken s = absurd (omega (arith, s.in_time))
  spin_for_complete_lem p (suc rounds) polls cq taken s = elim (s.waiting 0) [
    | inl e ↦
        rw (spin_for_complete, s.seen 0, e, complete-none len pos entry p cq phased taken)
          (spin_for_complete_lem p rounds (λ k. polls (suc k)) cq taken (later p rounds polls s e))
    | inr e ↦ rw (
      spin_for_complete,
      s.seen 0,
      e,
      complete-some len pos entry p cq phased taken,
      s.seen 0,
      e,
      length-ring len pos entry (suc p),
    )
  ]

  -- The tail goes round the submission ring.
  submit_lem :
      (data_ : CommandSet) (sq : SubmitQueue)
      → sq.tail < length sq.queue
      → length sq.queue < u32_mod
      → submit data_ sq
        ≡ some (
          (sq.tail + 1) % length sq.queue,
          record { queue = set sq.queue sq.tail data_; tail = (sq.tail + 1) % length sq.queue },
        )
  unfolding submit
  submit_lem data_ sq room small =
      let room' = lt→ltb _ _ room in
      let whole : length sq.queue % u32_mod ≡ length sq.queue = omega arith in
      elim (Bool-cases (leb (length sq.queue) (sq.tail + 1))) [
        | inl e ↦
            let last : sq.tail + 1 ≡ length sq.queue = ground arith in
            let turn : (sq.tail + 1) % length sq.queue ≡ 0 =
              ap (λ n. n % length sq.queue) last ∙ mod_self (length sq.queue) in
            rw (turn, whole, e, room')
        | inr e ↦
            let turn : (sq.tail + 1) % length sq.queue ≡ sq.tail + 1 =
              mod-eq_of_lt (ground arith) in
            rw (turn, whole, e, room')
      ]

  -- With a device that serves the command within `rounds` polls, `command_sync` puts the command
  -- into the slot at the tail, rings the doorbell with the next tail, returns by the status of
  -- the next completion and of no other, rings the doorbell with the next head, and leaves the
  -- queue ready for the next command.
  pub command_sync_lem :
      (p rounds : ℕ) (polls : ℕ → List NvmeCompletion) (data_ : CommandSet) (q : NvmeQueue)
      → len < u32_mod
      → Ready p q
      → Serves p rounds polls
      → (q' : NvmeQueue) × (command_sync rounds polls data_ q ≡ (
          if is_success (entry p).status then ok tt q' else err (unknown "send command failed") q'))
        × Ready (suc p) q'
        × (get_elem? q'.sq.queue q.sq.tail ≡ some data_)
        × (q'.sq.tail ≡ (q.sq.tail + 1) % length q.sq.queue)
        × (q'.doorbells ≡ cq_head q.qid (suc p % len) ∷ sq_tail q.qid q'.sq.tail ∷ q.doorbells)
  unfolding command_sync
  command_sync_lem p rounds polls data_ q small ready s =
      let taken' = advance-Taken len pos p q.cq small ready.taken in
      let length' = length-set q.sq.queue q.sq.tail data_ in
      let nonempty : 0 < length q.sq.queue = omega (arith, ready.room) in
      let tail' = (q.sq.tail + 1) % length q.sq.queue in
      let q' : NvmeQueue = record q {
        sq = record { queue = set q.sq.queue q.sq.tail data_; tail = tail' };
        cq = advance len q.cq;
        doorbells = cq_head q.qid (advance len q.cq).head ∷ sq_tail q.qid tail' ∷ q.doorbells;
      } in
      (
        q',
        rw (
          command_sync,
          submit_lem data_ q.sq ready.room ready.small,
          spin_for_complete_lem p rounds polls q.cq ready.taken s,
        ),
        record {
          room = omega (arith, length', mod-lt (q.sq.tail + 1) nonempty);
          small = omega (arith, length', ready.small);
          taken = taken';
        },
        get_elem?-set_self q.sq.queue q.sq.tail data_ ready.room,
        refl,
        rw (taken'.head),
      )

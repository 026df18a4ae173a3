-- ===== src/Nvme/Commands.antt =====
-- driver/block/nvme/src/queue.rs and command.rs: the 64-byte commands. A `u32` is a number below
-- 2 ^ 32; `id` is the command identifier that `next_id` gives.
use sparreal_os.Prelude.{
  ℕ, ◌+◌, ◌-◌, ◌*◌, ◌/◌, ◌%◌, ◌^◌, bit_and, bit_or, Bool, ◌==◌, if◌then◌else◌,
}

abbrev pub u32_mod : ℕ
u32_mod = 2 ^ 32

-- `Opcode::new(generic, function, data_transfer)`, on `u8`.
abbrev pub opcode : (generic function data_transfer : ℕ) → ℕ
opcode generic function data_transfer =
    bit_or (bit_or (generic * 2 ^ 7 % 256) (function * 2 ^ 2 % 256)) data_transfer

abbrev pub create_io_sq : ℕ
create_io_sq = opcode 0 0 1

abbrev pub create_io_cq : ℕ
create_io_cq = opcode 0 1 1

abbrev pub set_features_opcode : ℕ
set_features_opcode = opcode 0 2 1

abbrev pub nvm_write : ℕ
nvm_write = opcode 0 0 1

abbrev pub nvm_read : ℕ
nvm_read = opcode 0 0 2

pub data Feature : Type 0 where
  number_of_queues : (nsq ncq : ℕ) → Feature
  interrupt_vector_configuration : Feature

pub record CommandSet : Type 0 where
  pub cdw0 : ℕ
  pub nsid : ℕ
  pub cdw2 : ℕ × ℕ
  pub metadata : ℕ
  pub prp1 : ℕ
  pub prp2 : ℕ
  pub cdw10 : ℕ
  pub cdw11 : ℕ
  pub cdw12 : ℕ
  pub cdw13 : ℕ
  pub cdw14 : ℕ
  pub cdw15 : ℕ

-- `Default::default()`
abbrev pub zeroed : CommandSet
zeroed = record {
  cdw0 = 0;
  nsid = 0;
  cdw2 = (0, 0);
  metadata = 0;
  prp1 = 0;
  prp2 = 0;
  cdw10 = 0;
  cdw11 = 0;
  cdw12 = 0;
  cdw13 = 0;
  cdw14 = 0;
  cdw15 = 0;
}

-- `next_id` on one processor: the identifier, and what the counter holds after it.
unfoldable pub next_id : ℕ → ℕ × ℕ
next_id factory = if factory == 0xffff then (0, 0) else (factory, (factory + 1) % u32_mod)

-- `CommandDword0::Opcode.val` and `CommandDword0::CommandId.val` cut to the field and shift.
unfoldable pub cdw0_from_opcode : (op id : ℕ) → ℕ
cdw0_from_opcode op id = op % 2 ^ 8 + id % 2 ^ 16 * 2 ^ 16

abbrev pub to_cdw10 : Feature → ℕ
to_cdw10 (number_of_queues nsq ncq) = 7
to_cdw10 interrupt_vector_configuration = 9

abbrev feature_cdw11 : Feature → ℕ
feature_cdw11 (number_of_queues nsq ncq) = bit_or nsq (ncq * 2 ^ 16 % u32_mod)
feature_cdw11 interrupt_vector_configuration = 0

unfoldable pub set_features : Feature → (id : ℕ) → CommandSet
set_features feature id = record zeroed {
  cdw0 = cdw0_from_opcode set_features_opcode id;
  cdw10 = to_cdw10 feature;
  cdw11 = feature_cdw11 feature;
}

-- `(qid & 0xffff) | ((size - 1) & 0xffff) << 16`
unfoldable pub queue_cdw10 : (qid size : ℕ) → ℕ
queue_cdw10 qid size = bit_or (bit_and qid 0xffff) (bit_and (size - 1) 0xffff * 2 ^ 16 % u32_mod)

-- `size` is at least 1: the source panics on `size - 1` for 0.
unfoldable pub create_io_completion_queue :
    (qid size paddr : ℕ) (physically_contiguous interrupts_enabled : Bool) (interrupt_vector id : ℕ)
    → CommandSet
create_io_completion_queue qid size paddr contiguous interrupts vector id = record zeroed {
  cdw0 = cdw0_from_opcode create_io_cq id;
  prp1 = paddr;
  cdw10 = queue_cdw10 qid size;
  cdw11 =
      bit_or (bit_or (if contiguous then 1 else 0) (if interrupts then 2 else 0))
        (vector * 2 ^ 16 % u32_mod);
}

unfoldable pub create_io_submission_queue :
    (qid size paddr : ℕ) (physically_contiguous : Bool) (priority cqid nvm_set_id id : ℕ)
    → CommandSet
create_io_submission_queue qid size paddr contiguous priority cqid nvm_set_id id = record zeroed {
  cdw0 = cdw0_from_opcode create_io_sq id;
  prp1 = paddr;
  cdw10 = queue_cdw10 qid size;
  cdw11 =
      bit_or (bit_or (if contiguous then 1 else 0) (priority * 2 % u32_mod))
        (cqid * 2 ^ 16 % u32_mod);
  cdw12 = nvm_set_id;
}

-- What `nvm_cmd_read` and `nvm_cmd_write` share: all but the opcode.
abbrev transfer : (op nsid paddr starting_lba blk_num id : ℕ) → CommandSet
transfer op nsid paddr starting_lba blk_num id = record zeroed {
  nsid = nsid;
  cdw0 = cdw0_from_opcode op id;
  prp1 = paddr;
  cdw10 = bit_and starting_lba 0xffff_ffff;
  cdw11 = starting_lba / 2 ^ 32 % u32_mod;
  cdw12 = blk_num;
}

unfoldable pub nvm_cmd_read : (nsid paddr starting_lba blk_num id : ℕ) → CommandSet
nvm_cmd_read nsid paddr starting_lba blk_num id =
    transfer nvm_read nsid paddr starting_lba blk_num id

unfoldable pub nvm_cmd_write : (nsid paddr starting_lba blk_num id : ℕ) → CommandSet
nvm_cmd_write nsid paddr starting_lba blk_num id =
    transfer nvm_write nsid paddr starting_lba blk_num id

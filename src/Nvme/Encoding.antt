-- ===== src/Nvme/Encoding.antt =====
-- driver/block/nvme/src/queue.rs: what a controller reads back from the fields of a command.
use sparreal_os.Prelude.{
  ℕ, ◌+◌, ◌-◌, ◌*◌, ◌/◌, ◌%◌, ◌^◌, ◌≤◌, ◌<◌, ◌≡◌, refl, arith, bit_or, bit_and,
}
use sparreal_os.Prelude.Bits.{bit_and-mask, bit_or-shifted}
use sparreal_os.Nvme.Commands.{
  CommandSet, cdw0_from_opcode, nvm_cmd_read, nvm_cmd_write, queue_cdw10, next_id, u32_mod,
}

low_word : (n : ℕ) → bit_and n 0xffff ≡ n % 2 ^ 16
low_word n = bit_and-mask 16 n

-- The fields that the NVMe specification gives a read or a write.
abbrev pub starting_lba_of : CommandSet → ℕ
starting_lba_of c = c.cdw10 + c.cdw11 * 2 ^ 32

abbrev pub opcode_of : CommandSet → ℕ
opcode_of c = c.cdw0 % 2 ^ 8

abbrev pub command_id_of : CommandSet → ℕ
command_id_of c = c.cdw0 / 2 ^ 16

-- A read and a write of blocks at any 64-bit address carry that address, the namespace and the
-- data pointer, the opcodes 2 and 1, and a 16-bit command identifier.
pub transfer_lem :
    (nsid paddr lba blk_num id : ℕ)
    → lba < 2 ^ 64
    → id < 2 ^ 16
    → let read = nvm_cmd_read nsid paddr lba blk_num id in
      let write = nvm_cmd_write nsid paddr lba blk_num id in
      (starting_lba_of read ≡ lba)
      × (opcode_of read ≡ 2)
      × (command_id_of read ≡ id)
      × (read.nsid ≡ nsid)
      × (read.prp1 ≡ paddr)
      × (starting_lba_of write ≡ lba)
      × (opcode_of write ≡ 1)
      × (command_id_of write ≡ id)
      × (write.nsid ≡ nsid)
      × (write.prp1 ≡ paddr)
unfolding nvm_cmd_read nvm_cmd_write cdw0_from_opcode
transfer_lem nsid paddr lba blk_num id small small_id =
    let low : bit_and lba 0xffff_ffff ≡ lba % 2 ^ 32 = bit_and-mask 32 lba in
    let whole : bit_and lba 0xffff_ffff + lba / 2 ^ 32 % u32_mod * 2 ^ 32 ≡ lba =
      rw low (omega arith) in
    (whole, omega arith, omega arith, refl, refl, whole, omega arith, omega arith, refl, refl)

-- A command that creates a queue of up to 2 ^ 16 entries names the queue in the low half of its
-- dword 10 and, counted from 0, the size in the high half.
pub queue_cdw10_lem :
    (qid size : ℕ)
    → qid < 2 ^ 16
    → 0 < size
    → size ≤ 2 ^ 16
    → (queue_cdw10 qid size % 2 ^ 16 ≡ qid) × (queue_cdw10 qid size / 2 ^ 16 + 1 ≡ size)
unfolding queue_cdw10
queue_cdw10_lem qid size small pos fits =
    let cut : bit_and (size - 1) 0xffff * 2 ^ 16 % u32_mod ≡ (size - 1) * 2 ^ 16 =
      rw (low_word (size - 1)) (omega arith) in
    let both : bit_or (bit_and qid 0xffff) (bit_and (size - 1) 0xffff * 2 ^ 16 % u32_mod)
        ≡ qid + (size - 1) * 2 ^ 16 =
      let whole : qid % 2 ^ 16 ≡ qid = omega arith in
      rw (low_word qid, cut, whole) (bit_or-shifted 16 qid (size - 1) small) in
    rw both (omega arith, omega arith)

-- The identifiers stay 16 bits wide, and the counter in its range.
pub next_id_lem :
    (factory : ℕ)
    → factory ≤ 0xffff
    → ((next_id factory).0 < 0xffff) × ((next_id factory).1 ≤ 0xffff)
unfolding next_id
next_id_lem factory h = ground arith

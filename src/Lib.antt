-- ===== src/Lib.antt =====
-- sparreal-os: models of the kernel's page tables, timers, memory ranges and block drivers, with
-- their theorems.
--
-- Parts, and the files of the repository that they model:
-- Paging is crates/page-table-generic/src. `Paging.Meta` holds the traits as records of operations
-- with laws, `Paging.Geometry` the cut of an address into indices (frame.rs), `Paging.Frame` the
-- accesses to a table, `Paging.Translate` the walk and `PageTableRef::translate` (frame.rs,
-- table.rs), `Paging.Map` the mapping of a range and `Paging.Unmap` its opposite (map.rs,
-- table.rs). `Paging.Walk` is the iterator of walk.rs, and `Paging.Release` hands a whole page table
-- or the tables below one entry back (frame.rs, table.rs), by recursion on the levels. The memory of
-- the tables, the allocator and the flushes are one state, `Machine`; an error keeps the state it
-- left behind. Not modelled: the filters of `PageTableRef::walk` and `walk_valid`.
-- Aarch64 is crates/someboot/src/arch/aarch64/paging/pte.rs, the entries of aarch64 without the
-- feature `hv`; X86 is crates/someboot/src/arch/x86_64/paging.rs and Loongarch is
-- crates/someboot/src/arch/loongarch64/pte.rs, with the geometry of paging.rs there. Aarch64 and X86
-- fill the interface of Paging.Meta. Not modelled: the boot code that maps the memory of a machine.
-- Gic is driver/intc/gic/src: the ids of interrupts (define.rs), the specifiers of a device tree
-- (version/mod.rs), the distributor of GICv2 (version/v2/gicd.rs, mod.rs), its target lists and
-- acknowledgements (version/v2/mod.rs). The device is a parameter with the documented behaviour of its
-- registers (`Gic.Registers.DeviceLaws`). Not modelled: the other registers of the CPU interface, the
-- hypervisor interface and GICv3.
-- Serial is driver/serial/src/pl011.rs with the settings and errors of
-- driver/interface/rdif-serial/src/lib.rs: how a PL011 port is configured, and in `Serial.Transfer`
-- the bytes that it sends and receives. The device is a parameter, with the documented behaviour of
-- the registers of the configuration (`Serial.Registers.DeviceLaws`), where a disabled port falls quiet
-- only if no character waits in its transmit queue; arithmetic of 32 bits panics
-- where it overflows. Not modelled: the interrupt mask, the trigger levels of the queues, and the
-- halves of a port that are taken and set back.
-- Timer is crates/sparreal-kernel/src/os/time/timer.rs: the methods of `TimerManager`, and in
-- `Timer.Service` the functions of the kernel over it. The readings of the clock are arguments; what
-- the hardware timer was last told is part of the state. A function holds the lock around the
-- manager, so it is one step; `Timer.Armed` says which interval suits a deadline and a reading; the lock is the subject of `Sync`.
-- Nvme is driver/block/nvme/src/queue.rs and command.rs, the commands and the two rings of a queue.
-- The device is what the completion ring holds poll by poll. Not modelled: the set-up of the
-- controller (nvme.rs), the registers, and the block driver on top (block.rs).
-- Block is driver/interface/rdif-block/src/lib.rs and driver/block/ramdisk/src/lib.rs, the RAM disk
-- and its queues. An operation runs under the lock of the disk, so it is one step; it
-- panics where the id of the queue is 64 or more, as the shift of `IdList` does, or the ids of
-- requests run out.
-- Ranges is crates/ranges-ext/src/lib.rs, sets of ranges over a vector that never lacks room, with
-- the memory descriptors of crates/kernutil/src/memory.rs as an instance. Not modelled: the vector
-- of fixed capacity, and the constructors of descriptors that align.
-- Sync is crates/sparreal-kernel/src/os/sync/spinlock.rs and os/irq/guard.rs: the processors and one
-- lock as a step relation. Not modelled: a processor that asks for a lock that it holds itself.
-- Async is crates/sparreal-kernel/src/os/async: task.rs and executor.rs, with the queue of wake-ups, the
-- counter of ids and the readings of the clock in one state. A future is a parameter: for each poll the
-- calls it makes and whether it is ready. Not modelled: the pointer to the global executor.
--
-- `Prelude` holds what the parts share: Boolean tests, lists on native numbers, bits, and `Run`, the
-- outcome of stateful code that may fail, panic or use up its fuel.
--
-- Bounds and fuel: `usize` and `u64` are numbers with the overflow tests and the wrap-around of the
-- source written out. `map_range` takes a level, which falls with each table, and a number of
-- rounds, as does `unmap_range`; one round for each byte of the range is enough, since a round
-- advances by at least one byte. The loop of the walker takes the entries and tables that its stack
-- still has, which is enough. `wait_idle` takes the number of reads of the flag register; it is
-- enough where a disabled port with an empty transmit queue falls quiet within them.
-- `next_timer_id` takes one round more than there are timers, which is enough while there are fewer
-- than 2 ^ 64. `spin_for_complete` takes the number of polls, which is enough where the device
-- completes the command within them. `run_until_completion` takes the number of ticks, of which
-- none is enough for a future that is never ready. `merge_same_kind` takes one round more than
-- there are ranges: each round but the last takes one range away.
pub mod Prelude
pub mod Paging
pub mod Aarch64
pub mod Timer
pub mod X86
pub mod Loongarch
pub mod Nvme
pub mod Block
pub mod Ranges
pub mod Serial
pub mod Sync
pub mod Async
pub mod Gic

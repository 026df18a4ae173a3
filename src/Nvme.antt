-- ===== src/Nvme.antt =====
-- driver/block/nvme/src: the queues of the NVMe driver and the commands that it puts on them.
pub mod Commands
pub mod Encoding
pub mod Queues
pub mod Ring
pub mod Service
mod Tests

-- ===== src/Gic.antt =====
-- driver/intc/gic: the GICv2 interrupt controller. Its registers are the interface of a device,
-- which is a parameter.
pub mod Ids
pub mod Registers
pub mod Distributor
pub mod Targets
pub mod Specifier
mod Samples
mod Tests

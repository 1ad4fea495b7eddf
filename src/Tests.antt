-- ===== src/Tests.antt =====
-- Concrete inputs: tests of the definitions, and the theorems applied at inputs that exercise them.
pub mod Disk
pub mod Packets
pub mod Exchange
pub mod Pages
pub mod Boot
pub mod Loader
pub mod Web
pub mod Network
pub mod Faults
pub mod Kernel
pub mod Shell

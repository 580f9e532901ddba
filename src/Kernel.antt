-- ===== src/Kernel.antt =====
-- The start of the kernel, its interrupts and its end (kernel/src/main.rs, gdt.rs, interrupts.rs and
-- panic.rs).
pub mod Panic
pub mod Interrupts
pub mod Tables
pub mod Boot
mod Tests

-- ===== src/Fs.antt =====
-- The file system layer: kernel/src/fs, kernel/src/drivers/fs and the character devices.
pub mod Path
pub mod Types
pub mod State
pub mod Registry
pub mod Node
pub mod Ram
pub mod Dev
pub mod Drivers
pub mod Cache
pub mod Resolve
pub mod Mount
pub mod Files
pub mod Directories
pub mod Init
pub mod Calls
pub mod Links
pub mod Reachable
mod Tests

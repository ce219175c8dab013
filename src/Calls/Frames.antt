-- ===== src/Calls/Frames.antt =====
-- What each write of the services of src/vera_mmu leaves alone: all tables but those of its own group.
mod Work
mod Chain
mod Runs
mod Registry
pub use Work.*
pub use Chain.*
pub use Runs.*
pub use Registry.*

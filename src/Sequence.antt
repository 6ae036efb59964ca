-- ===== src/Sequence.antt =====
-- The sequence scorer, agent/sequential: events, sliding windows, features, the three detectors and
-- the service that runs them. Timestamps are microseconds.
mod Events
mod Features
mod Detectors
mod Service
pub mod Windows
pub mod Scores
pub mod Bounds
unfoldable pub use Events.*
unfoldable pub use Features.*
unfoldable pub use Detectors.*
unfoldable pub use Service.*

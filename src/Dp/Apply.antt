-- ===== src/Dp/Apply.antt =====
-- src/dp/apply.ts: the runner that drives an operation through its phases.
pub mod Monad
pub mod Envelope
pub mod Steps
pub mod Reload
pub mod Phases
pub mod Drive
pub mod Stable
pub mod Whole
pub mod WholePhases
pub mod WholeDrive
pub mod WriteAhead
pub mod Tests
pub mod Timely

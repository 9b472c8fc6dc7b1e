-- ===== src/Dp/Agent.antt =====
-- src/dp/agent.ts: `DpAgent`, which owns the durable state of a data-plane node.
pub mod State
pub mod Identity
pub mod Rules
pub mod Settle
pub mod Verbs
pub mod Opening
pub mod Journal
pub mod Prune
pub mod Checks
pub mod Serial
pub mod Linear
pub mod Exclusive
pub mod Baseline
pub mod Promotion
pub mod Candidates
pub mod Ensures
pub mod Slots
pub mod Advance
pub mod Admission
pub mod VerbsAdvance
pub mod FenceAdvance
pub mod JournalAdvance
pub mod OpeningAdvance
pub mod Requests
pub mod History
pub mod Fencing
pub mod Answers
pub mod Replay
pub mod Commits
pub mod Standing
pub mod Intents
pub mod Ends
mod Tests
mod SerialTests
mod ExclusiveTests

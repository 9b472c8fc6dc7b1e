-- ===== src/Dp.antt =====
-- The data plane (src/dp): the agent that owns the durable state of a node, and the runner that
-- drives an apply operation through it.
pub mod Operation
pub mod Agent
pub mod Retention
pub mod SecretGc
pub mod Apply

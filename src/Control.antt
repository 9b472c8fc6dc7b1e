-- ===== src/Control.antt =====
-- src/control: the control plane.
pub mod Health
pub mod Leader

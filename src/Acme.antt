-- ===== src/Acme.antt =====
-- src/acme: what the certificate client sends.
pub mod Der
pub mod Read
pub mod Arcs
pub mod Open
pub mod Request
pub mod Names
pub mod Tests

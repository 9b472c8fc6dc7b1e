-- ===== src/Validate.antt =====
-- src/validate: checks of the model that need nothing but its values.
pub mod Ip
pub mod Strings
pub mod Cidr
pub mod Prefixes
pub mod Cover
pub mod Written
pub mod Sockets
pub mod Contention
pub mod Transition
pub mod Loopback
pub mod Tests

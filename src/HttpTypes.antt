-- ===== src/HttpTypes.antt =====
-- The http-types crate: the types that the other crates share.
mod Tests
pub mod Error
pub mod Metadata
pub mod Operation
pub mod Preferences
pub mod Representation
pub mod Request
pub mod Identifier

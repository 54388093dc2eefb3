-- ===== src/Message.antt =====
-- The message objects of the protocol, one module for each type.
pub mod Id
pub mod Data
pub mod Params
pub mod Version
pub mod Response
pub mod Request
pub mod Codec
pub mod Wire
pub mod SmallJson
mod Examples

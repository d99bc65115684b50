-- ===== src/Training.antt =====
-- internal/training: the packing of token streams and the worker protocol.
pub mod Protocol
pub mod Profile
pub mod Cache
pub mod Prepared
pub mod Parallelism
pub mod Product
pub mod Capacity
pub mod Epochs
pub mod Conversation
pub mod Selection
pub mod Written
mod Tests

-- ===== src/Filtering.antt =====
-- libcorsaro/libcorsaro_filtering.c: the built-in packet filters.
pub mod Packet
pub mod Params
pub mod Headers
pub mod Protocols
pub mod Payload
pub mod Compound
pub mod Ids
pub mod ApplyAll
pub mod ById
pub mod Custom
pub mod Entry
pub mod Agreement
pub mod Tests

-- ===== src/Tagging.antt =====
-- libcorsaro/libcorsaro_tagging.c: tagging packets, and telling which tagged packets were lost.
pub mod Loss
pub mod FilterBits
pub mod Taggers
pub mod Tags
mod Tests

-- ===== src/Distance.antt =====
-- top_impl.h: how far apart two words are. The answer is a byte with a bit for each kind of match:
-- bit 0 exact, bits 1 to 3 Hamming distance 1 to 3, bits 4 to 6 edit distance 1 to 3.
pub mod Defs
pub mod Longer
pub mod Same
pub mod Hamming
pub mod Strong
pub mod Near
pub mod Part
pub mod Gaps

-- ===== src/Rlp.antt =====
-- libdevcore/RLP.h and RLP.cpp: the recursive length-prefix encoding.
pub mod Constants
pub mod Item
pub mod Stream
pub mod Reader

-- ===== src/VoteCounter.antt =====
-- CSCI4061_asn3/votecounter.c, which counts encrypted files of votes into the files of a tree of
-- directories. The buffers are unbounded and read as zero until they are written.
pub mod Decrypt
pub mod Queue
pub mod Threads
pub mod Paths
pub mod Files
pub mod Worker
pub mod Clean
pub mod Setup

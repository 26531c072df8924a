-- ===== src/Server.antt =====
-- The election server, CSCI4061_asn4/server.c.
pub mod State
pub mod Dag
pub mod Invariant
pub mod Polls
pub mod Votes
pub mod Count
pub mod Region
pub mod Dispatch
pub mod Thread

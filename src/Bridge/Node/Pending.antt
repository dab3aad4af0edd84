-- ===== src/Bridge/Node/Pending.antt =====
-- native/p2p_bridge/src/node.rs: the table of the requests that wait for an answer, over every run of
-- the loop.
pub mod Table
pub mod Changes
pub mod Answers
pub mod Recovery

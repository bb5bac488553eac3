-- ===== src/Protocol.antt =====
-- impl/lnpl/protocol.py: parts of the agent protocol.
pub mod Cycle
pub mod Structure

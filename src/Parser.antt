-- ===== src/Parser.antt =====
-- impl/lnpl/parser.py: the body of a workflow, built line by line.
pub mod State
pub mod Body
pub mod Contents
pub mod Placed
pub mod Adds
pub mod Order
pub mod Source

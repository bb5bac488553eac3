-- ===== src/Eval.antt =====
-- impl/lnpl/interp.py: the values of references, the guards and the aggregates of a run.
pub mod Scope
pub mod Value
pub mod Guard
pub mod Kinds
pub mod Logic
pub mod Proper

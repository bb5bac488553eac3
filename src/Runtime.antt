-- ===== src/Runtime.antt =====
-- impl/lnpl/interp.py: parts of the mode-A runtime.
pub mod Retry
pub mod World
pub mod Steps
pub mod Client
pub mod Run
pub mod Repository
pub mod Cache

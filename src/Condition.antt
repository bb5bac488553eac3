-- ===== src/Condition.antt =====
-- impl/lnpl/condition.py: guard conditions and assignment values, parsed and printed.
pub mod Syntax
pub mod Instant
pub mod Names
pub mod Parse
pub mod Print
pub mod Tokens
pub mod Plain
pub mod Values
pub mod Terms
pub mod Conjunction
pub mod RoundTrip
pub mod Sound
pub mod Raises
pub mod Assign
pub mod References

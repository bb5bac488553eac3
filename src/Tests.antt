-- ===== src/Tests.antt =====
-- Runs of the model at fixed inputs, and each theorem at an input that meets its hypotheses.
mod Conditions
mod Lexing
mod Assignments
mod Bodies
mod Retries
mod Stores
mod Headers
mod Sources
mod Names
mod Prices
mod Instants
mod Guards
mod Runs
mod Seeds
mod Owners
mod Documents

-- ===== src/Tests.antt =====
-- Test data, runs of the code on it, and the theorems at concrete inputs.
mod Data
mod Token
mod Exchange
mod Rules
mod Requests
mod Controls
mod Histories
mod Successes

-- ===== src/Tests.antt =====
-- Runs of the definitions on small inputs, and the theorems applied to inputs where their
-- hypotheses hold.
mod Framing
mod Walks
mod Sizes
mod Splitting
mod Writing
mod Windows
mod Names
mod Digits
mod Maps
mod Scan
mod Comments

-- ===== src/Tests.antt =====
-- Concrete runs: the theorems applied where their hypotheses hold.
mod Buffers
mod Frames
mod Names
mod Pipeline
mod Command
mod Verbs
mod Traffic
mod Intake
mod Serial
mod Threads
mod Tools
mod Cleaning
mod Asking
mod Opening

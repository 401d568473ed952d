-- ===== src/Examples.antt =====
-- Tests, and the theorems at concrete inputs.
mod Sorting
mod Machine
mod Texts
mod Launcher
mod Judging
mod Submitting
mod Serving
mod Helping
mod Deserving
mod Files
mod Recording
mod Rounds

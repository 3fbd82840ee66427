-- ===== src/Driver.antt =====
-- driver/Simulation.cpp: the time loops, their outputs and checkpoints.
pub mod Loops
pub mod Surface

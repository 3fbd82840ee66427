-- ===== src/Linear.antt =====
-- core/LinearSystem.cpp: a solve and the policy that says when the preconditioner is built again.
pub mod System
pub mod Solve
pub mod Reuse

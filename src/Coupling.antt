-- ===== src/Coupling.antt =====
-- src/coupling: the coupled step of the surface and the subsurface.
pub mod Exchange
pub mod Step

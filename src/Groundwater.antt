-- ===== src/Groundwater.antt =====
-- src/gw: the subsurface solver.
pub mod AdaptiveStep
pub mod Reallocation

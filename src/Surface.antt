-- ===== src/Surface.antt =====
-- swe/: the surface flow of one rank. `State` has the fields and the kernels' ranges; each child
-- models the routines of one source file, and `Step` composes them as the class does.
pub mod State
pub mod FreeSurface
pub mod System
pub mod WetDry
pub mod VelocityBoundary
pub mod Fluxes
pub mod Momentum
pub mod Sources
pub mod Setup
pub mod Step
pub mod Initial

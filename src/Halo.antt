-- ===== src/Halo.antt =====
-- core/HaloExchanger.cpp: the registered fields, the coalesced messages and the exchange among all
-- ranks. A field is a function of its indices (j, i, k), with the halo at 0 and at n + 1.
pub mod Messages
pub mod Kernels
pub mod Exchange
pub mod Placement
pub mod Corners
pub mod Registry

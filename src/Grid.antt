-- ===== src/Grid.antt =====
-- core/Grid.cpp: the structured grid and its block decomposition.
pub mod Blocks
pub mod Decomposition
pub mod Layout
pub mod Ids

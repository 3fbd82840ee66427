-- ===== src/Boundary.antt =====
-- bc/: the polygons of the regions, and the boundary conditions with the cells that they act on.
pub mod Kinds
pub mod Polygon
pub mod Conditions

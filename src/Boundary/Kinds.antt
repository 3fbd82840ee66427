-- ===== src/Boundary/Kinds.antt =====
-- bc/BoundaryKinds.hpp: the faces that conditions act on, and the cells of a condition, in local
-- indices with the halo.
use frehg.Prelude.{ℕ}

pub data BcFace : Type 0 where
  x_plus : BcFace
  x_minus : BcFace
  y_plus : BcFace
  y_minus : BcFace
  bottom_face : BcFace
  top_face : BcFace

pub record BcCell : Type 0 where
  pub j : ℕ
  pub i : ℕ
  pub face : BcFace

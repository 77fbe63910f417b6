-- ===== src/ConstraintHandler.antt =====
-- component/solver/modules/ConstraintHandler.cpp, by function.
pub mod Rows
pub mod Sides
pub mod Ready
pub mod Shape
pub mod Stages
pub mod Limits
pub mod Inequality
pub mod Equality
pub mod Bounds
pub mod States
pub mod Release

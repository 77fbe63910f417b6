-- ===== src/Impl.antt =====
-- component/solver/modules/QPInverseProblemImpl.cpp, by function.
pub mod Lines
pub mod Matrices
pub mod State
pub mod Cycling
pub mod Pivot
pub mod Oases
pub mod Results
pub mod Contacts
pub mod Rounds
pub mod Solve

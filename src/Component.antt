-- ===== src/Component.antt =====
-- component/behavior and component/constraint: the actuators and effectors that the solver asks for limits
-- and tells its results, as far as the repository implements them.
pub mod Window
pub mod Actuator
pub mod Cable
pub mod Joint
pub mod Point
pub mod Pressure
pub mod Effector

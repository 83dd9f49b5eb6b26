-- ===== src/Microros.antt =====
-- The portable core of the micro-ROS runtime: firmware/mentor_pi_mcu/app/microros, runtime_core.h
-- and runtime_core.cc.
pub mod Clock
pub mod Arena
pub mod Session
pub mod Release
pub mod Create
pub mod Destroy
pub mod Slice

-- ===== src/Bringup.antt =====
-- The ROS 2 bring-up package: ros2_ws/src/mentor_pi_bringup.
pub mod Status
pub mod Core
pub mod Supervisor
pub mod Campaign
pub mod Commissioning

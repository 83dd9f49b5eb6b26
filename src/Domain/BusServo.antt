-- ===== src/Domain/BusServo.antt =====
-- bus_servo.cc and bus_servo.h: the frames of the servo bus and the order in which the owner of
-- the UART sends moves and stops.
pub mod Codec
pub mod Scheduler

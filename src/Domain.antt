-- ===== src/Domain.antt =====
-- The portable firmware domain: firmware/mentor_pi_mcu/include/mentor_pi_mcu/domain and
-- firmware/mentor_pi_mcu/src.
pub mod DmaPosition
pub mod RxRing
pub mod Result
pub mod Commands
pub mod Validation
pub mod BusServo
pub mod Mailbox
pub mod Button
pub mod Pattern
pub mod Requests
pub mod Commanding
pub mod PwmServo
pub mod PwmChannel
pub mod Indicating

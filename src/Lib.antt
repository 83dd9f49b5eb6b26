-- ===== src/Lib.antt =====
-- Mentor Pi: a model of the firmware's portable core and of the state machines that
-- supervise it on the robot's computer.
--
-- The robot has a microcontroller (firmware/mentor_pi_mcu) and a ROS 2 computer (ros2_ws). The
-- firmware reads a serial link that a micro-ROS agent serves, keeps a session with the agent,
-- creates and destroys its ROS entities, and moves servos. On the computer a supervisor applies
-- the configuration of a controller that appears and only then enables motion. A qualification
-- campaign on the computer publishes commands on a schedule, watches the controller for hours and
-- gives a verdict, and a commissioning run turns one motor under supervision.
--
-- Serial bytes arrive by DMA into a ring (RxRing, positions from DmaPosition). The session
-- (Session) opens and closes with the agent: creation (Create) and destruction (Destroy) of the
-- entities are plans of single calls that fit deadlines (Clock); an active session shares time
-- between work classes (Slice) without missing the releases of the protected streams (Release).
-- Commands that arrive are checked (Validation, Requests) and reach their workers through
-- mailboxes that merge them (Commanding, Indicating, Mailbox); moves and stops of bus servos are
-- ordered and framed (BusServo), while PWM servos follow trajectories (PwmServo). Two buttons
-- (Button) and patterns for LEDs and buzzer (Pattern) serve the user. The supervisor (Bringup)
-- sees heartbeats of the session.
--
-- Files and the code they model:
--   Prelude, Prelude/*: lists, words, bits and integers that the others share.
--   Domain/Result, Domain/Commands: firmware/mentor_pi_mcu/include/mentor_pi_mcu/domain/result.h
--     and commands.h; a fixed array is a list.
--   Domain/Validation: firmware/mentor_pi_mcu/src/validation.cc, one function per check, a loop
--     as a recursive function (check_ids, check_pulses, check_offsets, check_positions).
--   Domain/Requests: the rest of validation.cc, configuration and state requests and OLED lines.
--   Domain/Commanding, Domain/Indicating: firmware/mentor_pi_mcu/src/command_mailboxes.cc and
--     state_merger.cc, one function per Publish and ResetMergedFields, over the mailbox of
--     Domain/Mailbox; Indicating has the LEDs, the RGB pixels and the display.
--   Domain/BusServo: firmware/mentor_pi_mcu/src/bus_servo.cc. Codec has BusServoCodec (BuildFrame,
--     ParseFrame, Checksum); Scheduler has BusServoScheduler, its private fields as a record and
--     each method as a function from state to state.
--   Domain/RxRing: .../domain/circular_rx_ring.h. Positions are 32-bit words; the ghost state in
--     RxRing/Positions counts bytes without wrap.
--   Domain/PwmServo, Domain/PwmChannel: firmware/mentor_pi_mcu/src/pwm_servo_controller.cc; a loop
--     over the channels is a function on lists beside the function for one channel.
--   Domain/Button: firmware/mentor_pi_mcu/src/button_controller.cc. ProcessButton is split at its
--     conditions; the events are returned in the order in which the code pushes them.
--   Domain/Pattern: firmware/mentor_pi_mcu/src/pattern_controller.cc, BinaryPattern, LedController
--     and BuzzerController.
--   Domain/Mailbox: .../domain/fixed_containers.h, LatestMailbox; a call is the sequence of its
--     accesses to shared memory, and a list of accesses is an interleaving of the two sides.
--   Domain/DmaPosition: .../domain/circular_dma_position.h.
--   Microros/*: firmware/mentor_pi_mcu/app/microros, runtime_core.h and runtime_core.cc. Session is
--     the state machine, Create and Destroy the two cursors, Release the timelines, Slice the
--     scheduler of work classes, Clock the deadline tests. Arena is reclaiming_arena.h and .cc of the
--     same directory: the storage is a function from offsets to words, Arena/Blocks ties the headers
--     in it to a list of blocks, and the search of Allocate has the capacity plus one as fuel, which
--     Arena/Walk shows to be enough.
--   Bringup: ros2_ws/src/mentor_pi_bringup, supervisor_core.h and supervisor_core.cc. Status has
--     the data, Core the private helpers, Supervisor the public methods and the events.
--   Bringup/Campaign: qualification_campaign_core.h and .cc of the same package. Profile has the
--     modes, Scheduler the class CampaignScheduler, and State the fields of
--     QualificationCampaignCore in groups; Transitions, Diagnostics, Telemetry, Evidence and
--     Polling have its operations, Finish the verdict, and Trace all public calls as events. An
--     int64_t time is an integer, and arithmetic on doubles a record of operations (Doubles).
--   Bringup/Commissioning: motor_commissioning_core.h and .cc of the same package. Motion has the
--     tests on the observed motors, Core the private steps, Runtime RuntimeFailure, Observe the
--     observers, Tick the rest and the calls as events. Floats are a parameter (Floats) with the
--     literals of the source as fields.
--
-- State is passed explicitly, so a method is a function from the old state to the new one and the
-- result. Each child module that proves something is named for it; Tests hold runs at concrete
-- values.
--
-- Bounds: a machine word is a natural number, and each operation that wraps has its modulus written
-- out (Prelude.Words). Times of the firmware are 32-bit milliseconds; times of the supervisor are
-- natural numbers, as its steady clock does not wrap; int64_t times of the campaign and of a
-- commissioning run are integers, whose overflow is not modelled. Only the search of Allocate takes
-- fuel: every other loop of the source runs over a list or a count, and is recursion on it.
--
-- Not modelled: floating-point control (motor controller, battery, kinematics), the queue that
-- drops its oldest entry, memory orders weaker than sequential consistency, the worker threads,
-- drivers and the STM32 platform, the calls of the rcl library, ROS nodes and launch files. A null
-- pointer is an option only in the bus servo codec; elsewhere the pointers are not null.
pub mod Prelude
pub mod Domain
pub mod Microros
pub mod Bringup

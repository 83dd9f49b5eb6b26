-- ===== src/Domain/BusServo/Codec/Tests.antt =====
-- Frames of the servo bus at concrete values.
use mentor_pi_ros.Prelude.{ℕ, ◌≡◌, ◌≢◌, refl, some, List, [], ◌∷◌, arith}
use mentor_pi_ros.Domain.Result.{ok, ok_result}
use mentor_pi_ros.Domain.BusServo.Codec.{
  empty_frame, built_frame, build_frame, parse_frame, check_frame, checksum, add_bytes,
  write_arguments, read_arguments,
}
use mentor_pi_ros.Domain.BusServo.Codec.RoundTrip.{decoded, parse_frame-build_frame}
use mentor_pi_ros.Domain.BusServo.Codec.Corruption.{corrupted_byte_rejected}

-- Servo 1 moves to 500 in one second.
abbrev move_arguments : List ℕ
move_arguments = 0xf4 ∷ 0x01 ∷ 0xe8 ∷ 0x03 ∷ []

abbrev stop_bytes : List ℕ
stop_bytes = 0x55 ∷ 0x55 ∷ 7 ∷ 3 ∷ 12 ∷ 233 ∷ []

move_bytes :
    (built_frame 1 1 move_arguments 4).bytes
    ≡ 0x55 ∷ 0x55 ∷ 1 ∷ 7 ∷ 1 ∷ 0xf4 ∷ 0x01 ∷ 0xe8 ∷ 0x03 ∷ 0x16 ∷ 0 ∷ 0 ∷ 0 ∷ 0 ∷ []
unfolding built_frame write_arguments checksum add_bytes
move_bytes = refl

parse_frame-build_frame_example :
    (let frame = built_frame 1 1 move_arguments 4 in
      (build_frame 1 1 (some move_arguments) 4 (some empty_frame) ≡ (ok_result, some frame))
      × (parse_frame (some frame.bytes) frame.size ≡ decoded 1 1 move_arguments))
parse_frame-build_frame_example =
    parse_frame-build_frame 1 1 move_arguments empty_frame (omega arith) (omega arith) (omega arith)

stop_bytes-ok : (parse_frame (some stop_bytes) 6).result.code ≡ ok
unfolding parse_frame check_frame checksum add_bytes read_arguments
stop_bytes-ok = refl

corrupted_byte_rejected_example :
    (parse_frame (some (0x55 ∷ 0x55 ∷ 8 ∷ 3 ∷ 12 ∷ 233 ∷ [])) 6).result.code ≢ ok
corrupted_byte_rejected_example =
    corrupted_byte_rejected stop_bytes 6 2 8 refl (omega arith) (omega arith) (omega arith)
      (λ e. absurd (omega (arith, e))) stop_bytes-ok

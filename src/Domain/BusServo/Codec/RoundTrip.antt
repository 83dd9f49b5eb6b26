-- ===== src/Domain/BusServo/Codec/RoundTrip.antt =====
-- bus_servo.cc, BusServoCodec: what is built is parsed back.
use mentor_pi_ros.Prelude.{
  ℕ, ◌-◌, ◌≤◌, ◌<◌, ◌≡◌, refl, some, List, [], ◌∷◌, ◌++◌, ◌+◌, ap, sym, ◌∙◌, length, drop, arith,
}
use mentor_pi_ros.Domain.Result.{ok_result}
use mentor_pi_ros.Domain.BusServo.Codec.Checksums.{Accepted, check_frame-Accepted}
use mentor_pi_ros.Domain.BusServo.Codec.{
  byte_at, checksum, add_bytes, BusServoFrame, ParsedBusServoFrame, built_frame, build_frame,
  no_arguments, parse_frame, read_arguments, write_arguments,
}

abbrev pub decoded : ℕ → ℕ → List ℕ → ParsedBusServoFrame
decoded servo_id opcode arguments = record {
  result = ok_result;
  servo_id = servo_id;
  opcode = opcode;
  arguments = arguments ++ drop (length arguments) no_arguments;
  argument_count = length arguments;
}

parse-Accepted :
    (bytes : List ℕ) (size : ℕ)
    → Accepted bytes size
    → parse_frame (some bytes) size ≡ record {
      result = ok_result;
      servo_id = byte_at bytes 2;
      opcode = byte_at bytes 4;
      arguments = read_arguments (byte_at bytes 3 - 3) 0 bytes no_arguments;
      argument_count = byte_at bytes 3 - 3;
    }
unfolding parse_frame
parse-Accepted bytes size h = rw (check_frame-Accepted bytes size h)

layout-Accepted :
    (bytes : List ℕ) (size servo_id n : ℕ)
    → byte_at bytes 0 ≡ 0x55
    → byte_at bytes 1 ≡ 0x55
    → byte_at bytes 2 ≡ servo_id
    → byte_at bytes 3 ≡ n + 3
    → size ≡ n + 6
    → byte_at bytes (n + 5) ≡ checksum (drop 2 bytes) (n + 3)
    → 0 < servo_id
    → servo_id ≤ 254
    → n ≤ 8
    → Accepted bytes size
layout-Accepted bytes size servo_id n first second id len whole sum p q r = record {
  first_header = first;
  second_header = second;
  some_length = omega (arith, len);
  short_length = omega (arith, len, r);
  whole = omega (arith, whole, len);
  some_id = omega (arith, id, p);
  short_id = omega (arith, id, q);
  sum =
      ap (λ t. byte_at bytes t) (omega (arith, whole))
      ∙ sum
      ∙ ap (λ t. checksum (drop 2 bytes) t) (sym len);
}

built-Accepted :
    (servo_id opcode : ℕ) (arguments : List ℕ)
    → 0 < servo_id
    → servo_id ≤ 254
    → length arguments ≤ 8
    → (let frame = built_frame servo_id opcode arguments (length arguments) in
        Accepted frame.bytes frame.size)
unfolding built_frame write_arguments checksum add_bytes
built-Accepted servo_id opcode [] p q r =
    layout-Accepted _ _ servo_id 0 refl refl refl refl refl refl p q r
built-Accepted servo_id opcode (a ∷ []) p q r =
    layout-Accepted _ _ servo_id 1 refl refl refl refl refl refl p q r
built-Accepted servo_id opcode (a ∷ b ∷ []) p q r =
    layout-Accepted _ _ servo_id 2 refl refl refl refl refl refl p q r
built-Accepted servo_id opcode (a ∷ b ∷ c ∷ []) p q r =
    layout-Accepted _ _ servo_id 3 refl refl refl refl refl refl p q r
built-Accepted servo_id opcode (a ∷ b ∷ c ∷ d ∷ []) p q r =
    layout-Accepted _ _ servo_id 4 refl refl refl refl refl refl p q r
built-Accepted servo_id opcode (a ∷ b ∷ c ∷ d ∷ e ∷ []) p q r =
    layout-Accepted _ _ servo_id 5 refl refl refl refl refl refl p q r
built-Accepted servo_id opcode (a ∷ b ∷ c ∷ d ∷ e ∷ f ∷ []) p q r =
    layout-Accepted _ _ servo_id 6 refl refl refl refl refl refl p q r
built-Accepted servo_id opcode (a ∷ b ∷ c ∷ d ∷ e ∷ f ∷ g ∷ []) p q r =
    layout-Accepted _ _ servo_id 7 refl refl refl refl refl refl p q r
built-Accepted servo_id opcode (a ∷ b ∷ c ∷ d ∷ e ∷ f ∷ g ∷ h ∷ []) p q r =
    layout-Accepted _ _ servo_id 8 refl refl refl refl refl refl p q r
built-Accepted servo_id opcode (a ∷ b ∷ c ∷ d ∷ e ∷ f ∷ g ∷ h ∷ i ∷ rest) p q r =
    absurd (omega arith)

built_fields :
    (servo_id opcode : ℕ) (arguments : List ℕ)
    → length arguments ≤ 8
    → (let bytes = (built_frame servo_id opcode arguments (length arguments)).bytes in
        let n = byte_at bytes 3 - 3 in
        record {
          result = ok_result;
          servo_id = byte_at bytes 2;
          opcode = byte_at bytes 4;
          arguments = read_arguments n 0 bytes no_arguments;
          argument_count = n;
        })
      ≡ decoded servo_id opcode arguments
unfolding built_frame write_arguments read_arguments checksum add_bytes
built_fields servo_id opcode [] r = refl
built_fields servo_id opcode (a ∷ []) r = refl
built_fields servo_id opcode (a ∷ b ∷ []) r = refl
built_fields servo_id opcode (a ∷ b ∷ c ∷ []) r = refl
built_fields servo_id opcode (a ∷ b ∷ c ∷ d ∷ []) r = refl
built_fields servo_id opcode (a ∷ b ∷ c ∷ d ∷ e ∷ []) r = refl
built_fields servo_id opcode (a ∷ b ∷ c ∷ d ∷ e ∷ f ∷ []) r = refl
built_fields servo_id opcode (a ∷ b ∷ c ∷ d ∷ e ∷ f ∷ g ∷ []) r = refl
built_fields servo_id opcode (a ∷ b ∷ c ∷ d ∷ e ∷ f ∷ g ∷ h ∷ []) r = refl
built_fields servo_id opcode (a ∷ b ∷ c ∷ d ∷ e ∷ f ∷ g ∷ h ∷ i ∷ rest) r = absurd (omega arith)

-- Building a frame for an id from 1 to 254 with at most eight arguments succeeds, and parsing the
-- frame gives back the id, the opcode and the arguments, padded with zeros to eight.
pub parse_frame-build_frame :
    (servo_id opcode : ℕ) (arguments : List ℕ) (before : BusServoFrame)
    → 0 < servo_id
    → servo_id ≤ 254
    → length arguments ≤ 8
    → (let frame = built_frame servo_id opcode arguments (length arguments) in
        (build_frame servo_id opcode (some arguments) (length arguments) (some before)
          ≡ (ok_result, some frame))
        × (parse_frame (some frame.bytes) frame.size ≡ decoded servo_id opcode arguments))
unfolding build_frame
parse_frame-build_frame servo_id opcode arguments before p q r = (
  ground arith,
  parse-Accepted _ _ (built-Accepted servo_id opcode arguments p q r)
      ∙ built_fields servo_id opcode arguments r,
)

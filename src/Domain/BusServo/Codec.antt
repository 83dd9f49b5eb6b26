-- ===== src/Domain/BusServo/Codec.antt =====
-- BusServoCodec: building and parsing one frame. An opcode is the byte that stands for it, since
-- the parser casts any byte to the enumeration; a pointer is an Option.
pub mod Checksums
pub mod RoundTrip
pub mod Corruption
mod Tests
use mentor_pi_ros.Prelude.{
  ℕ, zero, suc, ◌+◌, ◌-◌, ◌%◌, Bool, ◌&&◌, ◌||◌, not, Option, none, some, true, false, List, [],
  ◌∷◌, ltb, leb, ◌==◌, ◌!=◌, if◌then◌else◌, u8, u16, get_or, set, drop,
}
use mentor_pi_ros.Domain.Result.{
  Result, ok, invalid_argument, out_of_range, io_error, is_ok, ok_result, failure,
}

abbrev pub frame_header : ℕ
frame_header = 0x55

abbrev pub maximum_arguments : ℕ
maximum_arguments = 8

abbrev pub move_time_write : ℕ
move_time_write = 1

abbrev pub move_stop : ℕ
move_stop = 12

pub record BusServoFrame : Type 0 where
  pub bytes : List ℕ
  pub size : ℕ

pub record ParsedBusServoFrame : Type 0 where
  pub result : Result
  pub servo_id : ℕ
  pub opcode : ℕ
  pub arguments : List ℕ
  pub argument_count : ℕ

-- `maximum_arguments + 6` zeros.
abbrev pub empty_frame : BusServoFrame
empty_frame = record {
  bytes = 0 ∷ 0 ∷ 0 ∷ 0 ∷ 0 ∷ 0 ∷ 0 ∷ 0 ∷ 0 ∷ 0 ∷ 0 ∷ 0 ∷ 0 ∷ 0 ∷ [];
  size = 0;
}

abbrev pub no_arguments : List ℕ
no_arguments = 0 ∷ 0 ∷ 0 ∷ 0 ∷ 0 ∷ 0 ∷ 0 ∷ 0 ∷ []

abbrev pub rejected : Result → ParsedBusServoFrame
rejected result = record {
  result = result;
  servo_id = 0;
  opcode = move_time_write;
  arguments = no_arguments;
  argument_count = 0;
}

-- The loop of `Checksum`; the callers stay within the array.
unfoldable pub add_bytes : List ℕ → ℕ → ℕ → ℕ
add_bytes bytes zero sum = sum
add_bytes [] (suc left) sum = sum
add_bytes (byte ∷ bytes) (suc left) sum = add_bytes bytes left (u16 (sum + byte))

-- `~sum`, cast to a byte.
unfoldable pub checksum : List ℕ → ℕ → ℕ
checksum id_through_arguments size = 0xff - u8 (add_bytes id_through_arguments size 0)

-- The loop that writes the arguments from `index` on.
unfoldable pub write_arguments : ℕ → ℕ → List ℕ → List ℕ → List ℕ
write_arguments zero index arguments bytes = bytes
write_arguments (suc left) index arguments bytes =
    write_arguments left (index + 1) arguments (set bytes (5 + index) (get_or arguments index 0))

-- The frame that is built once the arguments of the call are accepted.
unfoldable pub built_frame : ℕ → ℕ → List ℕ → ℕ → BusServoFrame
built_frame servo_id opcode arguments argument_count =
    let header = set (set empty_frame.bytes 0 frame_header) 1 frame_header in
    let addressed = set (set header 2 servo_id) 3 (u8 (argument_count + 3)) in
    let bytes = write_arguments argument_count 0 arguments (set addressed 4 opcode) in
    record {
      bytes = set bytes (5 + argument_count) (checksum (drop 2 bytes) (argument_count + 3));
      size = u8 (argument_count + 6);
    }

abbrev is_missing : Option (List ℕ) → Bool
is_missing none = true
is_missing (some bytes) = false

abbrev pub contents : Option (List ℕ) → List ℕ
contents none = []
contents (some bytes) = bytes

-- `BuildFrame`, with what the pointer `frame` holds afterwards.
unfoldable pub build_frame :
    ℕ → ℕ → Option (List ℕ) → ℕ → Option BusServoFrame → Result × Option BusServoFrame
build_frame servo_id opcode arguments argument_count none = (failure invalid_argument 0, none)
build_frame servo_id opcode arguments argument_count (some frame) =
    if is_missing arguments && argument_count != 0
    then (failure invalid_argument 0, some frame)
    else if servo_id == 0 || ltb 254 servo_id
    then (failure out_of_range 0, some frame)
    else if ltb maximum_arguments argument_count
    then (failure out_of_range (u16 argument_count), some frame)
    else (ok_result, some (built_frame servo_id opcode (contents arguments) argument_count))

-- The loop that reads the arguments from `index` on.
unfoldable pub read_arguments : ℕ → ℕ → List ℕ → List ℕ → List ℕ
read_arguments zero index bytes arguments = arguments
read_arguments (suc left) index bytes arguments =
    read_arguments left (index + 1) bytes (set arguments index (get_or bytes (5 + index) 0))

abbrev pub byte_at : List ℕ → ℕ → ℕ
byte_at bytes index = get_or bytes index 0

-- The guards of `ParseFrame` in their order.
unfoldable pub check_frame : List ℕ → ℕ → Result
check_frame bytes size =
    let frame_length = byte_at bytes 3 in
    if ltb size 6
    then failure invalid_argument 0
    else if byte_at bytes 0 != frame_header || byte_at bytes 1 != frame_header
    then failure invalid_argument 1
    else if ltb frame_length 3
        || ltb (maximum_arguments + 3) frame_length
        || size != frame_length + 3
    then failure invalid_argument 2
    else if byte_at bytes 2 == 0 || ltb 254 (byte_at bytes 2)
    then failure out_of_range 0
    else if byte_at bytes (size - 1) != checksum (drop 2 bytes) (frame_length - 3 + 3)
    then failure io_error 1
    else ok_result

unfoldable pub parse_frame : Option (List ℕ) → ℕ → ParsedBusServoFrame
parse_frame none size = rejected (failure invalid_argument 0)
parse_frame (some bytes) size =
    let checked = check_frame bytes size in
    let argument_count = byte_at bytes 3 - 3 in
    if not (is_ok checked) then rejected checked else record {
      result = ok_result;
      servo_id = byte_at bytes 2;
      opcode = byte_at bytes 4;
      arguments = read_arguments argument_count 0 bytes no_arguments;
      argument_count = argument_count;
    }

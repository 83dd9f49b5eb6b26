-- ===== src/Domain/BusServo/Codec/Checksums.antt =====
-- bus_servo.cc, BusServoCodec: when a frame is accepted, and what its checksum detects.
use mentor_pi_ros.Prelude.{
  ℕ, zero, suc, ◌+◌, ◌-◌, ◌%◌, ◌≤◌, ◌<◌, ◌≡◌, refl, ap, ◌^◌, some, List, [], ◌∷◌, drop, length, set,
  arith,
}
use mentor_pi_ros.Domain.Result.{ok, ok_result}
use mentor_pi_ros.Domain.BusServo.Codec.{add_bytes, checksum, byte_at, check_frame, parse_frame}

-- A frame that passes every guard of the parser.
pub record Accepted (bytes : List ℕ) (size : ℕ) : Type 0 where
  pub first_header : byte_at bytes 0 ≡ 0x55
  pub second_header : byte_at bytes 1 ≡ 0x55
  pub some_length : 3 ≤ byte_at bytes 3
  pub short_length : byte_at bytes 3 ≤ 11
  pub whole : size ≡ byte_at bytes 3 + 3
  pub some_id : 0 < byte_at bytes 2
  pub short_id : byte_at bytes 2 ≤ 254
  pub sum : byte_at bytes (size - 1) ≡ checksum (drop 2 bytes) (byte_at bytes 3)

pub check_frame-Accepted :
    (bytes : List ℕ) (size : ℕ) → Accepted bytes size → check_frame bytes size ≡ ok_result
unfolding check_frame
check_frame-Accepted bytes size h = rw (regroup) (ground arith)
  where
    regroup : byte_at bytes 3 - 3 + 3 ≡ byte_at bytes 3
    regroup = omega (arith, h.some_length)

Accepted-check_frame :
    (bytes : List ℕ) (size : ℕ) → (check_frame bytes size).code ≡ ok → Accepted bytes size
unfolding check_frame
Accepted-check_frame bytes size h = ground arith

pub Accepted-parse_frame :
    (bytes : List ℕ) (size : ℕ)
    → (parse_frame (some bytes) size).result.code ≡ ok
    → Accepted bytes size
unfolding parse_frame
Accepted-parse_frame bytes size h = Accepted-check_frame bytes size (ground arith)

unfoldable pub total : List ℕ → ℕ → ℕ
total bytes zero = 0
total [] (suc left) = 0
total (byte ∷ bytes) (suc left) = byte + total bytes left

add_bytes-eq :
    (bytes : List ℕ) (left sum : ℕ)
    → add_bytes bytes left sum % 256 ≡ (sum + total bytes left) % 256
unfolding add_bytes total
add_bytes-eq bytes zero sum = omega arith
add_bytes-eq [] (suc left) sum = omega arith
add_bytes-eq (byte ∷ bytes) (suc left) sum =
    omega (arith, add_bytes-eq bytes left ((sum + byte) % 2 ^ 16))

pub checksum-eq : (bytes : List ℕ) (left : ℕ) → checksum bytes left ≡ 255 - total bytes left % 256
unfolding checksum
checksum-eq bytes left = omega (arith, add_bytes-eq bytes left 0)

pub total-set :
    (bytes : List ℕ) (left index value : ℕ)
    → index < left
    → index < length bytes
    → total (set bytes index value) left + byte_at bytes index ≡ total bytes left + value
unfolding total
total-set bytes zero index value p q = absurd (omega arith)
total-set [] (suc left) index value p q = absurd (omega arith)
total-set (byte ∷ bytes) (suc left) zero value p q = omega arith
total-set (byte ∷ bytes) (suc left) (suc index) value p q =
    omega (arith, total-set bytes left index value (omega arith) (omega arith))

pub total-set_after :
    (bytes : List ℕ) (left index value : ℕ)
    → left ≤ index
    → total (set bytes index value) left ≡ total bytes left
unfolding total
total-set_after bytes zero index value p = refl
total-set_after [] (suc left) index value p = refl
total-set_after (byte ∷ bytes) (suc left) zero value p = absurd (omega arith)
total-set_after (byte ∷ bytes) (suc left) (suc index) value p =
    ap (λ t. byte + t) (total-set_after bytes left index value (omega arith))

-- ===== src/Domain/BusServo/Codec/Corruption.antt =====
-- bus_servo.cc, BusServoCodec: one corrupted byte is always noticed.
use mentor_pi_ros.Prelude.{
  ℕ, zero, suc, ◌+◌, ◌-◌, ◌≤◌, ◌<◌, ◌≡◌, ◌≢◌, refl, ap, sym, ◌∙◌, some, List, [], ◌∷◌, length, set,
  arith, inl, inr, ◌⊎◌,
}
use mentor_pi_ros.Domain.Result.{ok}
use mentor_pi_ros.Domain.BusServo.Codec.{checksum, byte_at, parse_frame}
use mentor_pi_ros.Domain.BusServo.Codec.Checksums.{
  Accepted, Accepted-parse_frame, checksum-eq, total-set, total-set_after,
}

byte_at-set_self :
    (bytes : List ℕ) (index value : ℕ)
    → index < length bytes
    → byte_at (set bytes index value) index ≡ value
byte_at-set_self [] index value h = absurd (omega arith)
byte_at-set_self (byte ∷ bytes) zero value h = refl
byte_at-set_self (byte ∷ bytes) (suc index) value h =
    byte_at-set_self bytes index value (omega arith)

byte_at-set_ne :
    (bytes : List ℕ) (index at value : ℕ)
    → index ≢ at
    → byte_at (set bytes index value) at ≡ byte_at bytes at
byte_at-set_ne [] index at value h = refl
byte_at-set_ne (byte ∷ bytes) zero zero value h = absurd (h refl)
byte_at-set_ne (byte ∷ bytes) zero (suc at) value h = refl
byte_at-set_ne (byte ∷ bytes) (suc index) zero value h = refl
byte_at-set_ne (byte ∷ bytes) (suc index) (suc at) value h =
    byte_at-set_ne bytes index at value (λ e. h (ap suc e))

-- The id and what follows it, with the checksum at position n.
tail_detects :
    (rest : List ℕ) (n index value : ℕ)
    → n < length rest
    → index ≤ n
    → value < 256
    → byte_at rest index < 256
    → byte_at rest n ≡ checksum rest n
    → byte_at (set rest index value) n ≡ checksum (set rest index value) n
    → value ≡ byte_at rest index
tail_detects rest n index value len le v b before after = elim position [
  | inl lt ↦ omega (
    arith,
    total-set rest n index value lt (omega arith),
    checksum-eq rest n,
    checksum-eq (set rest index value) n,
    byte_at-set_ne rest index n value (λ e. absurd (omega (arith, e, lt))),
  )
  | inr e ↦ omega (
    arith,
    ap (λ t. byte_at (set rest index value) t) (sym e),
    ap (λ t. byte_at rest t) e,
    total-set_after rest n index value (omega (arith, e)),
    checksum-eq rest n,
    checksum-eq (set rest index value) n,
    byte_at-set_self rest index value (omega arith),
  )
]
  where
    position : (index < n) ⊎ (index ≡ n)
    position = ground arith

last_position : (size n : ℕ) → size ≡ n + 3 → suc (suc n) ≡ size - 1
last_position size n h = omega (arith, h)

equal_when_both_pass :
    (bytes : List ℕ) (size index value : ℕ)
    → length bytes ≡ size
    → index < size
    → value < 256
    → byte_at bytes index < 256
    → Accepted bytes size
    → Accepted (set bytes index value) size
    → value ≡ byte_at bytes index
equal_when_both_pass [] size index value len lt v b p q = absurd (omega (arith, p.whole))
equal_when_both_pass (first ∷ []) size index value len lt v b p q = absurd (omega (arith, p.whole))
equal_when_both_pass (first ∷ second ∷ rest) size zero value len lt v b p q =
    omega (arith, p.first_header, q.first_header)
equal_when_both_pass (first ∷ second ∷ rest) size (suc zero) value len lt v b p q =
    omega (arith, p.second_header, q.second_header)
equal_when_both_pass (first ∷ second ∷ []) size (suc (suc index)) value len lt v b p q =
    absurd (omega arith)
equal_when_both_pass (first ∷ second ∷ id ∷ []) size (suc (suc index)) value len lt v b p q =
    absurd (omega (arith, p.whole))
equal_when_both_pass (first ∷ second ∷ id ∷ n ∷ rest) size (suc (suc (suc zero))) value len lt v b p
      q =
    omega (arith, p.whole, q.whole)
equal_when_both_pass (first ∷ second ∷ id ∷ n ∷ rest) size (suc (suc zero)) value len lt v b p q =
    tail_detects (id ∷ n ∷ rest) n 0 value (omega (arith, p.whole)) (omega arith) v b
      (ap (byte_at (first ∷ second ∷ id ∷ n ∷ rest)) (last_position size n p.whole) ∙ p.sum)
      (ap (byte_at (first ∷ second ∷ value ∷ n ∷ rest)) (last_position size n p.whole) ∙ q.sum)
equal_when_both_pass (first ∷ second ∷ id ∷ n ∷ rest) size (suc (suc (suc (suc index)))) value len
      lt v b p q =
    tail_detects (id ∷ n ∷ rest) n (suc (suc index)) value (omega (arith, p.whole))
      (omega (arith, p.whole)) v b
      (ap (byte_at (first ∷ second ∷ id ∷ n ∷ rest)) (last_position size n p.whole) ∙ p.sum)
      (ap (byte_at (first ∷ second ∷ id ∷ n ∷ set rest index value)) (last_position size n p.whole)
        ∙ q.sum)

-- When the parser accepts a buffer of bytes and any one of them is replaced by another byte, the
-- parser rejects the result: the header, the length, the id, the opcode, every argument and the
-- checksum are covered.
pub corrupted_byte_rejected :
    (bytes : List ℕ) (size index value : ℕ)
    → length bytes ≡ size
    → index < size
    → value < 256
    → byte_at bytes index < 256
    → value ≢ byte_at bytes index
    → (parse_frame (some bytes) size).result.code ≡ ok
    → (parse_frame (some (set bytes index value)) size).result.code ≢ ok
corrupted_byte_rejected bytes size index value len lt v b differs accepted bad = differs (
    equal_when_both_pass bytes size index value len lt v b
      (Accepted-parse_frame bytes size accepted)
      (Accepted-parse_frame (set bytes index value) size bad))

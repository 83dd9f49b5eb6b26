-- ===== src/Domain/Validation/Servos.antt =====
-- validation.cc: which servo commands are accepted.
use mentor_pi_ros.Prelude.{
  ℕ, zero, suc, ◌+◌, ◌≤◌, ◌<◌, ◌≡◌, ◌≢◌, ◌↔◌, refl, subst, ◌⊎◌, true, false, List, [], ◌∷◌, arith,
  get_or, length, inl, inr,
}
use mentor_pi_ros.Domain.Result.{is_ok}
use mentor_pi_ros.Domain.Commands.{BusServoCommand}
use mentor_pi_ros.Domain.Validation.{
  is_bus_servo_id, has_prior, check_ids, validate_bus_servo_id_list, check_positions,
  validate_bus_servo_command,
}

-- The first `count` entries are servo identifiers, each named once.
pub record ValidIds (count : ℕ) (ids : List ℕ) : Type 0 where
  pub some_id : 0 < count
  pub batch : count ≤ 16
  pub smallest : (i : ℕ) → i < count → 1 ≤ get_or ids i 0
  pub largest : (i : ℕ) → i < count → get_or ids i 0 ≤ 253
  pub distinct : (i j : ℕ) → j < i → i < count → get_or ids j 0 ≢ get_or ids i 0

has_prior-distinct :
    (ids : List ℕ) (index servo_id j : ℕ)
    → has_prior ids index servo_id ≡ false
    → index ≤ length ids
    → j < index
    → get_or ids j 0 ≢ servo_id
unfolding has_prior
has_prior-distinct [] index servo_id j h len lt = absurd (omega arith)
has_prior-distinct (prior ∷ ids) zero servo_id j h len lt = absurd (omega arith)
has_prior-distinct (prior ∷ ids) (suc index) servo_id zero h len lt = ground arith
has_prior-distinct (prior ∷ ids) (suc index) servo_id (suc j) h len lt =
    has_prior-distinct ids index servo_id j (ground arith) (omega arith) (omega arith)

distinct-has_prior :
    (ids : List ℕ) (index servo_id : ℕ)
    → index ≤ length ids
    → ((j : ℕ) → j < index → get_or ids j 0 ≢ servo_id)
    → has_prior ids index servo_id ≡ false
unfolding has_prior
distinct-has_prior [] index servo_id len h = refl
distinct-has_prior (prior ∷ ids) zero servo_id len h = refl
distinct-has_prior (prior ∷ ids) (suc index) servo_id len h =
    let rest =
      distinct-has_prior ids index servo_id (omega arith) (λ j lt. h (suc j) (omega arith)) in
    let first = h 0 (omega arith) in ground arith

-- An entry that passes the body of the outer loop.
record GoodEntry (ids : List ℕ) (i : ℕ) : Type 0 where
  ranged : is_bus_servo_id (get_or ids i 0) ≡ true
  first : has_prior ids i (get_or ids i 0) ≡ false

check_ids-Good :
    (ids : List ℕ) (index left i : ℕ)
    → is_ok (check_ids ids index left) ≡ true
    → index ≤ i
    → i < index + left
    → GoodEntry ids i
unfolding check_ids
check_ids-Good ids index zero i h le lt = absurd (omega arith)
check_ids-Good ids index (suc left) i h le lt = elim position [
  | inl e ↦ subst (GoodEntry ids) e here
  | inr after ↦ check_ids-Good ids (index + 1) left i (ground arith) (omega arith) (omega arith)
]
  where
    here : GoodEntry ids index
    here = record { ranged = ground arith; first = ground arith }

    position : (index ≡ i) ⊎ (index < i)
    position = ground arith

Good-check_ids :
    (ids : List ℕ) (index left : ℕ)
    → ((i : ℕ) → index ≤ i → i < index + left → GoodEntry ids i)
    → is_ok (check_ids ids index left) ≡ true
unfolding check_ids
Good-check_ids ids index zero h = refl
Good-check_ids ids index (suc left) h =
    let here = h index (omega arith) (omega arith) in
    let rest = Good-check_ids ids (index + 1) left (λ i le lt. h i (omega arith) (omega arith)) in
    ground (arith, here.ranged, here.first)

validate_ids-ValidIds :
    (count : ℕ) (ids : List ℕ)
    → length ids ≡ 16
    → is_ok (validate_bus_servo_id_list count ids) ≡ true
    → ValidIds count ids
unfolding validate_bus_servo_id_list is_bus_servo_id
validate_ids-ValidIds count ids len h = record {
  some_id = some_id;
  batch = batch;
  smallest = λ i lt. (let g = (good i lt).ranged in ground arith);
  largest = λ i lt. (let g = (good i lt).ranged in ground arith);
  distinct = λ i j less lt.
      has_prior-distinct ids i _ j (good i lt).first (omega (arith, len, lt, batch)) less;
}
  where
    batch : count ≤ 16
    batch = ground arith

    some_id : 0 < count
    some_id = ground arith

    good : (i : ℕ) → i < count → GoodEntry ids i
    good i lt = check_ids-Good ids 0 count i (ground arith) (omega arith) (omega arith)

ValidIds-validate_ids :
    (count : ℕ) (ids : List ℕ)
    → length ids ≡ 16
    → ValidIds count ids
    → is_ok (validate_bus_servo_id_list count ids) ≡ true
unfolding validate_bus_servo_id_list is_bus_servo_id
ValidIds-validate_ids count ids len v = ground (arith, entries, v.some_id, v.batch)
  where
    good : (i : ℕ) → i < count → GoodEntry ids i
    good i lt = record {
      ranged = ground (arith, v.smallest i lt, v.largest i lt);
      first =
          distinct-has_prior ids i _ (omega (arith, len, lt, v.batch))
            (λ j less. v.distinct i j less lt);
    }

    entries : is_ok (check_ids ids 0 count) ≡ true
    entries = Good-check_ids ids 0 count (λ i le lt. good i (omega arith))

-- The list is accepted exactly when it names one to sixteen servos, each by an identifier from 1
-- to 253 and each once; the array holds sixteen entries.
pub validate_bus_servo_id_list_lem :
    (count : ℕ) (ids : List ℕ)
    → length ids ≡ 16
    → (is_ok (validate_bus_servo_id_list count ids) ≡ true) ↔ ValidIds count ids
validate_bus_servo_id_list_lem count ids len =
    (validate_ids-ValidIds count ids len, ValidIds-validate_ids count ids len)

check_positions-small :
    (positions : List ℕ) (index left i : ℕ)
    → is_ok (check_positions positions index left) ≡ true
    → index ≤ i
    → i < index + left
    → get_or positions i 0 ≤ 1000
unfolding check_positions
check_positions-small positions index zero i h le lt = absurd (omega arith)
check_positions-small positions index (suc left) i h le lt = elim position [
  | inl e ↦ subst (λ t. get_or positions t 0 ≤ 1000) e (ground arith)
  | inr after ↦
      check_positions-small positions (index + 1) left i (ground arith) (omega arith) (omega arith)
]
  where
    position : (index ≡ i) ⊎ (index < i)
    position = ground arith

small-check_positions :
    (positions : List ℕ) (index left : ℕ)
    → ((i : ℕ) → index ≤ i → i < index + left → get_or positions i 0 ≤ 1000)
    → is_ok (check_positions positions index left) ≡ true
unfolding check_positions
small-check_positions positions index zero h = refl
small-check_positions positions index (suc left) h =
    let here = h index (omega arith) (omega arith) in
    let rest =
      small-check_positions positions (index + 1) left
        (λ i le lt. h i (omega arith) (omega arith)) in
    ground arith

-- What an accepted move promises to the scheduler.
pub record ValidMove (command : BusServoCommand) : Type 0 where
  pub ids : ValidIds command.count command.servo_id
  pub brief : command.duration_ms ≤ 30000
  pub reachable : (i : ℕ) → i < command.count → get_or command.position i 0 ≤ 1000

-- A move command is accepted exactly when its identifiers are, it lasts at most 30 s, and each
-- position it names is at most 1000; the array of identifiers holds sixteen entries.
pub validate_bus_servo_command_lem :
    (command : BusServoCommand)
    → length command.servo_id ≡ 16
    → (is_ok (validate_bus_servo_command command) ≡ true) ↔ ValidMove command
unfolding validate_bus_servo_command
validate_bus_servo_command_lem command len = (
  (λ h. record {
    ids = validate_ids-ValidIds command.count command.servo_id len (ground arith);
    brief = ground arith;
    reachable = λ i lt.
        check_positions-small command.position 0 command.count i (ground arith) (omega arith)
          (omega arith);
  }),
  (λ v.
      (let ids = ValidIds-validate_ids command.count command.servo_id len v.ids in
        let positions =
          small-check_positions command.position 0 command.count
            (λ i le lt. v.reachable i (omega arith)) in
        ground (arith, v.brief))),
)

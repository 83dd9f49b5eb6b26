-- ===== src/Bringup/Campaign/Finish/Verdict.antt =====
-- Finish: what a campaign that passes has shown.
use mentor_pi_ros.Prelude.{
  ℕ, ◌*◌, ◌%◌, ◌^◌, ◌≤◌, ◌<◌, ◌≡◌, Bool, true, false, not, ◌&&◌, ◌||◌, bit_or, arith, Bool-cases,
  inl, inr,
}
use mentor_pi_ros.Prelude.Unions.{bit_or-eq_zero}
use mentor_pi_ros.Prelude.Int.{ℤ, ◌≤ℤ◌, ◌-ℤ◌, leb_ℤ}
use mentor_pi_ros.Bringup.Campaign.Profile.{
  command_count, service_count, telemetry_count, mode_eq, reset_mcu,
}
use mentor_pi_ros.Bringup.Campaign.State.{
  Doubles, Core, continuous, command_count_mismatch, service_coverage, telemetry_rate,
  endpoint_recovery_timeout, reset_cycle_missing,
}
use mentor_pi_ros.Bringup.Campaign.Finish.{
  bit_when, mark_all, miscounts_command, miscounts_service, lacks_gap, check_continuous,
  check_cycles, is_unrecovered, lacks_reset, check_transitions, is_optional, is_absent,
  check_telemetry, check_motor_age, check_evidence, finalize_coverage, finalize_rates, is_off_rate,
  button_observed,
}
use mentor_pi_ros.Bringup.Campaign.Finish.Clean.{bit-pos, bit_when-clean, mark_all-clean}

module _ {F : Type 0} where
  abbrev pub Unfailed : Core F → Type 0
  Unfailed c = c.failure_mask ≡ 0

  -- Everything but the failure mask.
  abbrev pub evidence : Core F → Core F
  evidence c = record c { failure_mask = 0 }

  pub record Begun (time : ℤ) (c : Core F) : Type 0 where
    pub before : Unfailed c
    pub started : c.evidence_started ≡ true
    pub lasted :
        continuous c ≡ true → c.configuration.duration_ns ≤ℤ time -ℤ c.evidence_start_time_ns
    pub agreed :
        c.heartbeat.seen ≡ true
        → c.diagnostics.seen ≡ true
        → c.diagnostics.last.session_generation ≡ c.heartbeat.current_session_id

  pub check_evidence-Begun :
      (time : ℤ) (c : Core F) → Unfailed (check_evidence time c) → Begun time c
  unfolding check_evidence
  check_evidence-Begun time c e = record {
    before = grind (arith, bit_or-eq_zero);
    started = grind (arith, bit_or-eq_zero, bit-pos);
    lasted = grind (arith, bit_or-eq_zero, bit-pos);
    agreed = grind (arith, bit_or-eq_zero, bit-pos);
  }

  -- Every command was published as often as its schedule says, and every service round answered.
  pub record Counted (c : Core F) : Type 0 where
    pub before : Unfailed c
    pub commands : (i : ℕ) → i < command_count → miscounts_command c i ≡ false
    pub services : (i : ℕ) → i < service_count → miscounts_service c i ≡ false

  pub check_continuous-Counted : (c : Core F) → Unfailed (check_continuous c) → Counted c
  unfolding check_continuous
  check_continuous-Counted c e =
      let services =
        mark_all-clean (λ i. bit_when (miscounts_service c i) service_coverage) service_count _ e in
      let commands =
        mark_all-clean (λ i. bit_when (miscounts_command c i) command_count_mismatch) command_count
          c.failure_mask services.0 in
      record {
        before = commands.0;
        commands = λ i lt. bit_when-clean _ command_count_mismatch (commands.1 i lt);
        services = λ i lt. bit_when-clean _ service_coverage (services.1 i lt);
      }

  pub record Cycled (c : Core F) : Type 0 where
    pub before : Unfailed c
    pub cycles : c.configuration.profile.expected_cycles ≤ c.transition.observed_cycles
    pub resets :
        mode_eq c.configuration.profile.mode reset_mcu ≡ true
        → c.configuration.profile.expected_cycles ≤ c.transition.observed_mcu_resets
    pub gaps : (i : ℕ) → i < telemetry_count → lacks_gap c i ≡ false

  pub check_cycles-Cycled : (c : Core F) → Unfailed (check_cycles c) → Cycled c
  unfolding check_cycles
  check_cycles-Cycled c e =
      let gaps =
        mark_all-clean (λ i. bit_when (lacks_gap c i) telemetry_rate) telemetry_count _ e in
      let none = gaps.0 in
      record {
        before = grind (arith, bit_or-eq_zero);
        cycles = grind (arith, bit_or-eq_zero, bit-pos);
        resets = grind (arith, bit_or-eq_zero, bit-pos);
        gaps = λ i lt. bit_when-clean _ telemetry_rate (gaps.1 i lt);
      }

  pub record Recovered (c : Core F) : Type 0 where
    pub before : Unfailed c
    pub endpoints : (i : ℕ) → i < c.transition.stored_count → is_unrecovered c i ≡ false
    pub resets : (i : ℕ) → i < c.transition.stored_count → lacks_reset c i ≡ false

  pub check_transitions-Recovered : (c : Core F) → Unfailed (check_transitions c) → Recovered c
  unfolding check_transitions
  check_transitions-Recovered c e =
      let endpoint = λ (i : ℕ). bit_when (is_unrecovered c i) endpoint_recovery_timeout in
      let reset = λ (i : ℕ). bit_when (lacks_reset c i) reset_cycle_missing in
      let all =
        mark_all-clean (λ i. bit_or (endpoint i) (reset i)) c.transition.stored_count c.failure_mask
          e in
      record {
        before = all.0;
        endpoints = λ i lt.
            bit_when-clean _ endpoint_recovery_timeout
              (bit_or-eq_zero (endpoint i) (reset i) (all.1 i lt)).0;
        resets = λ i lt.
            bit_when-clean _ reset_cycle_missing
              (bit_or-eq_zero (endpoint i) (reset i) (all.1 i lt)).1;
      }

  pub record Heard (time : ℤ) (c : Core F) : Type 0 where
    pub before : Unfailed c
    pub streams :
        (i : ℕ) → i < telemetry_count → (not (is_optional c i) && is_absent time c i) ≡ false

  pub check_telemetry-Heard :
      (time : ℤ) (c : Core F)
      → c.evidence_started ≡ true
      → Unfailed (check_telemetry time c)
      → Heard time c
  unfolding check_telemetry
  check_telemetry-Heard time c on e =
      let absent = λ (i : ℕ). not (is_optional c i) && is_absent time c i in
      let marked : mark_all (λ i. bit_when (absent i) telemetry_rate) telemetry_count 0
            c.failure_mask
          ≡ 0 =
        rw on at e in
      let all =
        mark_all-clean (λ i. bit_when (absent i) telemetry_rate) telemetry_count c.failure_mask
          marked in
      record { before = all.0; streams = λ i lt. bit_when-clean _ telemetry_rate (all.1 i lt) }

  pub check_telemetry-before :
      (time : ℤ) (c : Core F) → Unfailed (check_telemetry time c) → Unfailed c
  unfolding check_telemetry
  check_telemetry-before time c e = elim (Bool-cases c.evidence_started) [
    | inl on ↦ Heard.before (check_telemetry-Heard time c on e)
    | inr off ↦ rw off at e
  ]

  -- Commands reached the motors, at most one in a hundred of them 20 ms old or older, and none
  -- 100 ms old.
  pub record Young (c : Core F) : Type 0 where
    pub before : Unfailed c
    pub consumed : 0 < c.diagnostics.accumulated_motor_consumptions
    pub p99 :
        c.diagnostics.accumulated_motor_age_over_20_ms * 100 % 2 ^ 64
        ≤ c.diagnostics.accumulated_motor_consumptions
    pub maximum : c.diagnostics.motor_command_max_age_us < 100_000

  pub check_motor_age-Young : (c : Core F) → Unfailed (check_motor_age c) → Young c
  unfolding check_motor_age
  check_motor_age-Young c e = record {
    before = grind (arith, bit_or-eq_zero);
    consumed = grind (arith, bit_or-eq_zero, bit-pos);
    p99 = grind (arith, bit_or-eq_zero, bit-pos);
    maximum = grind (arith, bit_or-eq_zero, bit-pos);
  }

  pub finalize_coverage-clean :
      (c : Core F)
      → Unfailed (finalize_coverage c)
      → Unfailed c × (c.configuration.require_button_stimulus ≡ true → button_observed c ≡ true)
  unfolding finalize_coverage
  finalize_coverage-clean c e =
      (grind (arith, bit_or-eq_zero), grind (arith, bit_or-eq_zero, bit-pos))

  -- Ends early, and then measures no rate.
  abbrev pub is_instant : ℤ → Core F → Bool
  is_instant time c = not c.evidence_started || leb_ℤ time c.evidence_start_time_ns

  pub record Paced (ops : Doubles F) (time : ℤ) (c : Core F) : Type 0 where
    pub before : Unfailed c
    pub rates :
        is_instant time c ≡ false
        → (i : ℕ) → i < telemetry_count
        → (continuous c && is_off_rate ops time c i) ≡ false

  pub finalize_rates-Paced :
      (ops : Doubles F) (time : ℤ) (c : Core F)
      → Unfailed (finalize_rates ops time c)
      → Paced ops time c
  unfolding finalize_rates
  finalize_rates-Paced ops time c e = elim (Bool-cases (is_instant time c)) [
    | inl instant ↦ record {
      before = rw instant at e;
      rates = λ go i lt. absurd (ground (arith, instant, go));
    }
    | inr go ↦
        let off = λ (i : ℕ). continuous c && is_off_rate ops time c i in
        let marked : mark_all (λ i. bit_when (off i) telemetry_rate) telemetry_count 0
              c.failure_mask
            ≡ 0 =
          rw go at e in
        let all =
          mark_all-clean (λ i. bit_when (off i) telemetry_rate) telemetry_count c.failure_mask
            marked in
        record { before = all.0; rates = λ _ i lt. bit_when-clean _ telemetry_rate (all.1 i lt) }
  ]

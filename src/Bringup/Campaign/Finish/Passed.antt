-- ===== src/Bringup/Campaign/Finish/Passed.antt =====
-- Finish: a campaign that passes has met every requirement of its mode.
use mentor_pi_ros.Prelude.{
  ℕ, ◌*◌, ◌%◌, ◌^◌, ◌≤◌, ◌<◌, ◌≡◌, refl, ap, sym, ◌∙◌, subst, Bool, true, false, not, ◌&&◌, ◌||◌,
  arith, ◌==◌, ◌!=◌, if◌then◌else◌, get_or, Bool-cases, inl, inr,
}
use mentor_pi_ros.Prelude.Int.{ℤ, pos, ◌≤ℤ◌, ◌-ℤ◌}
use mentor_pi_ros.Bringup.Campaign.Profile.{
  command_count, service_count, telemetry_count, mode_eq, reset_mcu,
}
use mentor_pi_ros.Bringup.Campaign.Scheduler.{scheduled_slot_count, no_slots}
use mentor_pi_ros.Bringup.Campaign.Scheduler.Masks.{no_rate}
use mentor_pi_ros.Bringup.Campaign.State.{Doubles, Core, continuous, maximum_telemetry_gap_ns}
use mentor_pi_ros.Bringup.Campaign.Transitions.{transition_at}
use mentor_pi_ros.Bringup.Campaign.Finish.{
  miscounts_command, miscounts_service, expected_service_rounds, check_continuous, check_cycles,
  is_unrecovered, lacks_reset, check_transitions, is_optional, is_absent, check_telemetry,
  check_motor_age, check_evidence, finalize_rates, check_all, finish,
}
use mentor_pi_ros.Bringup.Campaign.Finish.Verdict.{
  Unfailed, evidence, Begun, Counted, Cycled, Recovered, Heard, Young, check_evidence-Begun,
  check_continuous-Counted, check_cycles-Cycled, check_transitions-Recovered, check_telemetry-Heard,
  check_telemetry-before, check_motor_age-Young, finalize_coverage-clean, finalize_rates-Paced,
}

-- What `Finish` certifies at time `time`.
pub record Passed {F : Type 0} (time : ℤ) (c : Core F) : Type 0 where
  pub unfailed : c.failure_mask ≡ 0
  pub started : c.evidence_started ≡ true
  pub lasted : continuous c ≡ true → c.configuration.duration_ns ≤ℤ time -ℤ c.evidence_start_time_ns
  pub commands :
      continuous c ≡ true
      → (i : ℕ) → i < command_count
      → (get_or c.counts.command_publications i 0
          ≡ scheduled_slot_count c.configuration.duration_ns
              (get_or c.configuration.profile.command_rates i no_rate))
        × ((get_or c.scheduler.commands i no_slots).skipped ≡ 0)
  pub services :
      continuous c ≡ true
      → (i : ℕ) → i < service_count
      → (get_or c.counts.service_successes i 0 ≡ expected_service_rounds c)
        × (get_or c.counts.service_requests i 0 ≡ expected_service_rounds c)
        × (get_or c.counts.service_failures i 0 ≡ 0)
        × (get_or c.counts.service_skips i 0 ≡ 0)
  pub cycles :
      continuous c ≡ false → c.configuration.profile.expected_cycles ≤ c.transition.observed_cycles
  pub recoveries :
      (i : ℕ)
      → i < c.transition.stored_count
      → ((transition_at c i).endpoint_recovered ≡ true)
        × ((transition_at c i).endpoint_recovery_ms ≤ 5000)
  pub resets :
      mode_eq c.configuration.profile.mode reset_mcu ≡ true
      → (i : ℕ) → i < c.transition.stored_count
      → (transition_at c i).mcu_uptime_regression_observed ≡ true
  pub heard :
      (i : ℕ)
      → i < telemetry_count
      → is_optional c i ≡ false
      → (get_or c.telemetry.time_seen i false ≡ true)
        × (time -ℤ get_or c.telemetry.last_time_ns i (pos 0)
            ≤ℤ maximum_telemetry_gap_ns c.configuration i)
  pub consumed : 0 < c.diagnostics.accumulated_motor_consumptions
  pub p99 :
      c.diagnostics.accumulated_motor_age_over_20_ms * 100 % 2 ^ 64
      ≤ c.diagnostics.accumulated_motor_consumptions
  pub maximum : c.diagnostics.motor_command_max_age_us < 100_000

eq_zero : (n : ℕ) → (n == 0) ≡ true → n ≡ 0
eq_zero n h = ground (arith, h)

module _ {F : Type 0} where
  counts-evidence :
      (c : Core F)
      → evidence (if continuous c then check_continuous c else check_cycles c) ≡ evidence c
  unfolding check_continuous check_cycles
  counts-evidence c = elim (Bool-cases (continuous c)) [
    | inl on ↦ rw on refl
    | inr off ↦ rw off refl
  ]

  telemetry-evidence : (time : ℤ) (c : Core F) → evidence (check_telemetry time c) ≡ evidence c
  unfolding check_telemetry
  telemetry-evidence time c = elim (Bool-cases c.evidence_started) [
    | inl on ↦ rw on refl
    | inr off ↦ rw off refl
  ]

  motor-evidence : (c : Core F) → evidence (check_motor_age c) ≡ evidence c
  unfolding check_motor_age
  motor-evidence c = elim (Bool-cases (c.diagnostics.accumulated_motor_consumptions == 0)) [
    | inl on ↦ rw on refl
    | inr off ↦ rw off refl
  ]

  -- The states between the checks.
  abbrev counted : ℤ → Core F → Core F
  counted time c =
      let begun = check_evidence time c in
      if continuous begun then check_continuous begun else check_cycles begun

  abbrev recovered : ℤ → Core F → Core F
  recovered time c = check_transitions (counted time c)

  abbrev told : ℤ → Core F → Core F
  told time c = check_telemetry time (recovered time c)

  counted-same : (time : ℤ) (c : Core F) → evidence (counted time c) ≡ evidence c
  unfolding check_evidence
  counted-same time c = counts-evidence (check_evidence time c)

  recovered-same : (time : ℤ) (c : Core F) → evidence (recovered time c) ≡ evidence c
  unfolding check_transitions
  recovered-same time c = counted-same time c

  told-same : (time : ℤ) (c : Core F) → evidence (told time c) ≡ evidence c
  told-same time c = telemetry-evidence time (recovered time c) ∙ recovered-same time c

  -- What the checks have found in turn, on the states that they were made on.
  record Findings (ops : Doubles F) (time : ℤ) (c : Core F) : Type 0 where
    begun : Begun time c
    counts : continuous c ≡ true → Counted (check_evidence time c)
    cycled : continuous c ≡ false → Cycled (check_evidence time c)
    recoveries : Recovered (counted time c)
    heard : Heard time (recovered time c)
    young : Young (told time c)

  unfailed_branch :
      (test : Bool) (d e : Core F)
      → Unfailed (if test then d else e)
      → (test ≡ true → Unfailed d) × (test ≡ false → Unfailed e)
  unfailed_branch true d e h = (λ _. h, λ off. absurd (ground (arith, off)))
  unfailed_branch false d e h = (λ on. absurd (ground (arith, on)), λ _. h)

  check_counts-split :
      (c : Core F)
      → Unfailed (if continuous c then check_continuous c else check_cycles c)
      → Unfailed c × (continuous c ≡ true → Counted c) × (continuous c ≡ false → Cycled c)
  check_counts-split c e =
      let branch = unfailed_branch (continuous c) (check_continuous c) (check_cycles c) e in
      let counts = λ (on : continuous c ≡ true). check_continuous-Counted c (branch.0 on) in
      let cycles = λ (off : continuous c ≡ false). check_cycles-Cycled c (branch.1 off) in
      let before : Unfailed c = elim (Bool-cases (continuous c)) [
        | inl on ↦ Counted.before (counts on)
        | inr off ↦ Cycled.before (cycles off)
      ] in
      (before, counts, cycles)

  check_all-Findings :
      (ops : Doubles F) (time : ℤ) (c : Core F)
      → Unfailed (check_all ops time c)
      → Findings ops time c
  unfolding check_all check_evidence
  check_all-Findings ops time c e =
      let covered =
        finalize_coverage-clean (finalize_rates ops time (check_motor_age (told time c))) e in
      let paced = finalize_rates-Paced ops time (check_motor_age (told time c)) covered.0 in
      let young = check_motor_age-Young (told time c) paced.before in
      let quiet : Unfailed (told time c) = young.before in
      let started : Unfailed (recovered time c) → (recovered time c).evidence_started ≡ true = λ h.
        ap (λ (d : Core F). d.evidence_started) (recovered-same time c) ∙ (begun_of h).started in
      let heard : Heard time (recovered time c) =
        check_telemetry-Heard time (recovered time c) (started (quiet_before quiet)) quiet in
      let recoveries = check_transitions-Recovered (counted time c) heard.before in
      let counts = check_counts-split (check_evidence time c) recoveries.before in
      record {
        begun = begun_of heard.before;
        counts = counts.1;
        cycled = counts.2;
        recoveries = recoveries;
        heard = heard;
        young = young;
      }
    where
      begun_of : Unfailed (recovered time c) → Begun time c
      begun_of h =
          let recoveries = check_transitions-Recovered (counted time c) h in
          check_evidence-Begun time c
            (check_counts-split (check_evidence time c) recoveries.before).0

      quiet_before : Unfailed (told time c) → Unfailed (recovered time c)
      quiet_before h = check_telemetry-before time (recovered time c) h

  right_count :
      (c : Core F) (i : ℕ)
      → miscounts_command c i ≡ false
      → (get_or c.counts.command_publications i 0
          ≡ scheduled_slot_count c.configuration.duration_ns
              (get_or c.configuration.profile.command_rates i no_rate))
        × ((get_or c.scheduler.commands i no_slots).skipped ≡ 0)
  right_count c i h = ground (arith, h)

  right_service :
      (c : Core F) (i : ℕ)
      → miscounts_service c i ≡ false
      → (get_or c.counts.service_successes i 0 ≡ expected_service_rounds c)
        × (get_or c.counts.service_requests i 0 ≡ expected_service_rounds c)
        × (get_or c.counts.service_failures i 0 ≡ 0)
        × (get_or c.counts.service_skips i 0 ≡ 0)
  right_service c i h =
      let rounds = expected_service_rounds c in
      let requests = get_or c.counts.service_requests i 0 in
      four rounds (get_or c.counts.service_successes i 0) requests
        (get_or c.counts.service_failures i 0) (get_or c.counts.service_skips i 0) h
    where
      four :
          (rounds good sent bad none : ℕ)
          → (sent != rounds || good != rounds || bad != 0 || none != 0) ≡ false
          → (good ≡ rounds) × (sent ≡ rounds) × (bad ≡ 0) × (none ≡ 0)
      four rounds good sent bad none h = ground (arith, h)

  right_recovery :
      (c : Core F) (i : ℕ)
      → is_unrecovered c i ≡ false
      → ((transition_at c i).endpoint_recovered ≡ true)
        × ((transition_at c i).endpoint_recovery_ms ≤ 5000)
  right_recovery c i h = ground (arith, h)

  right_stream :
      (time : ℤ) (c : Core F) (i : ℕ)
      → (not (is_optional c i) && is_absent time c i) ≡ false
      → is_optional c i ≡ false
      → (get_or c.telemetry.time_seen i false ≡ true)
        × (time -ℤ get_or c.telemetry.last_time_ns i (pos 0)
            ≤ℤ maximum_telemetry_gap_ns c.configuration i)
  right_stream time c i h needed = ground (arith, h, needed)

  Findings-Passed : (ops : Doubles F) (time : ℤ) (c : Core F) → Findings ops time c → Passed time c
  unfolding check_evidence
  Findings-Passed ops time c found = record {
    unfailed = found.begun.before;
    started = found.begun.started;
    lasted = found.begun.lasted;
    commands = λ on i lt. right_count c i (Counted.commands (found.counts on) i lt);
    services = λ on i lt. right_service c i (Counted.services (found.counts on) i lt);
    cycles = λ off. Cycled.cycles (found.cycled off);
    recoveries = λ i lt. right_recovery c i (
        subst (λ (d : Core F). is_unrecovered d i ≡ false) (counted-same time c)
          (found.recoveries.endpoints i (
            subst (λ (d : Core F). i < d.transition.stored_count) (sym (counted-same time c)) lt)));
    resets = λ reset i lt. ground (
      arith,
      reset,
      (subst (λ (d : Core F). lacks_reset d i ≡ false) (counted-same time c)
          (found.recoveries.resets i (
            subst (λ (d : Core F). i < d.transition.stored_count) (sym (counted-same time c)) lt))),
    );
    heard = λ i lt needed.
        right_stream time c i
          (subst (λ (d : Core F). (not (is_optional d i) && is_absent time d i) ≡ false)
            (recovered-same time c) (found.heard.streams i lt))
          needed;
    consumed =
        subst (λ (d : Core F). 0 < d.diagnostics.accumulated_motor_consumptions) (told-same time c)
          found.young.consumed;
    p99 =
        subst
          (λ (d : Core F).
            d.diagnostics.accumulated_motor_age_over_20_ms * 100 % 2 ^ 64
            ≤ d.diagnostics.accumulated_motor_consumptions)
          (told-same time c) found.young.p99;
    maximum =
        subst (λ (d : Core F). d.diagnostics.motor_command_max_age_us < 100_000) (told-same time c)
          found.young.maximum;
  }

  -- A campaign that passes has been started, has lasted as long as it was to, has published every
  -- command as often as its schedule says with no slot skipped and had every service round answered
  -- (or has gone through its cycles), has recovered from every transition within 5 s, has heard every
  -- stream that it needs up to the end, and has motor ages within their limits; and no failure was
  -- recorded before.
  pub finish-Passed :
      (ops : Doubles F) (time : ℤ) (c : Core F)
      → (finish ops time c).1.execution_passed ≡ true
      → Passed time c
  unfolding finish
  finish-Passed ops time c h =
      Findings-Passed ops time c
        (check_all-Findings ops time c (eq_zero (check_all ops time c).failure_mask h))

-- ===== src/Bringup/Supervisor/Tokens.antt =====
-- Requests: one that has left the air is never accepted again.
use mentor_pi_ros.Prelude.{
  ℕ, ◌+◌, ◌^◌, ◌≤◌, ◌<◌, ◌≡◌, ◌⊎◌, inl, inr, ◌∙◌, true, false, List, [], ◌∷◌, arith, u64, length,
}
use mentor_pi_ros.Bringup.Status.{RequestToken, Supervisor, token_eq}
use mentor_pi_ros.Bringup.Core.{is_some, is_current_token}
use mentor_pi_ros.Bringup.Supervisor.{Event, presence, heartbeat, timer, response, step, run}
use mentor_pi_ros.Bringup.Supervisor.Invariant.{Inv, run-Inv}

module _ {C : Type 0} where
  -- How a step moves the serial number of the requests.
  serial-step :
      (s : Supervisor C) (e : Event)
      → (((step s e).request_serial ≡ s.request_serial)
          × (is_some (step s e).in_flight ≡ true → is_some s.in_flight ≡ true))
        ⊎ ((step s e).request_serial ≡ u64 (s.request_serial + 1))
  unfolding step
  serial-step s (presence present now) = ground arith
  serial-step s (heartbeat sample now) = ground arith
  serial-step s (timer now) = ground arith
  serial-step s (response token result detail now) = ground arith

  -- `k` requests were sent since the one with serial `q`, which is not in flight.
  record IsPast (q k : ℕ) (s : Supervisor C) : Type 0 where
    sent : s.request_serial ≡ u64 (q + k)
    later : is_some s.in_flight ≡ true → 0 < k

  step-IsPast :
      (q k : ℕ) (s : Supervisor C) (e : Event)
      → IsPast q k s
      → (j : ℕ) × (j ≤ k + 1) × IsPast q j (step s e)
  step-IsPast q k s e h = elim (serial-step s e) [
    | inl (same, kept) ↦
        (k, omega arith, record { sent = same ∙ h.sent; later = λ f. h.later (kept f) })
    | inr next ↦ (
      k + 1,
      omega arith,
      record { sent = omega (arith, next, h.sent); later = λ f. omega arith },
    )
  ]

  run-IsPast :
      (q k : ℕ) (s : Supervisor C) (es : List Event)
      → IsPast q k s
      → (j : ℕ) × (j ≤ k + length es) × IsPast q j (run s es)
  unfolding run
  run-IsPast q k s [] h = (k, omega arith, h)
  run-IsPast q k s (e ∷ es) h =
      let (i, small, next) = step-IsPast q k s e h in
      let (j, bound, last) = run-IsPast q i (step s e) es next in (j, omega arith, last)

  past-not_current :
      (k : ℕ) (s : Supervisor C) (token : RequestToken)
      → Inv s
      → token.request_serial < 2 ^ 64
      → k < 2 ^ 64
      → IsPast token.request_serial k s
      → is_current_token s token ≡ false
  unfolding is_current_token token_eq
  past-not_current k s token h ht hk p = ground arith

  -- The last request sent, once nothing is in flight (it was answered, timed out or invalidated), is
  -- never the current one again, whatever comes in the next 2 ^ 64 - 1 events: a late or repeated
  -- response is stale.
  pub retired_token_stays_stale :
      (s : Supervisor C) (token : RequestToken) (es : List Event)
      → Inv s
      → token.request_serial < 2 ^ 64
      → token.request_serial ≡ s.request_serial
      → is_some s.in_flight ≡ false
      → length es < 2 ^ 64
      → is_current_token (run s es) token ≡ false
  retired_token_stays_stale s token es h ht q f n =
      let start : IsPast token.request_serial 0 s = record {
        sent = omega arith;
        later = λ e. cc;
      } in
      let (k, bound, past) = run-IsPast token.request_serial 0 s es start in
      past-not_current k (run s es) token (run-Inv s es h) ht (omega arith) past

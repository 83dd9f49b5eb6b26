-- ===== src/Microros/Session/Backoff.antt =====
-- The backoff between two attempts to reach the Agent.
use native.Mathlib.Nat.{pow-le-pow_right}
use mentor_pi_ros.Prelude.{
  ℕ, zero, suc, ◌+◌, ◌-◌, ◌*◌, ◌^◌, ◌≤◌, ◌<◌, ◌≡◌, refl, ◌∙◌, Bool, ◌&&◌, List, [], ◌∷◌, min, arith,
  if◌then◌else◌, get_or,
}
use mentor_pi_ros.Microros.Session.{
  backoff, Session, Call, fresh, step, run, is_in, is_not, enter_backoff, backoff_milliseconds,
}
use mentor_pi_ros.Microros.Session.Generations.{opens}

-- A call that ended an attempt.
abbrev fails : Session → Call → Bool
fails s c = is_not s.state backoff && is_in (step s c).state backoff

-- The attempts that ended since the last session was opened, `before` of them earlier.
pub attempts : Session → ℕ → List Call → ℕ
attempts s before [] = before
attempts s before (c ∷ cs) =
    attempts (step s c) (if opens s c then 0 else if fails s c then before + 1 else before) cs

-- 100 ms, doubled for each further attempt, and 2 s at most.
abbrev pub capped_delay : ℕ → ℕ
capped_delay attempt = min 2000 (100 * 2 ^ (attempt - 1))

record Waits (s : Session) (n : ℕ) : Type 0 where
  index : s.backoff_index ≡ min n 5
  delay :
      s.state ≡ backoff
      → (0 < n) × (s.current_backoff_ms ≡ get_or backoff_milliseconds (min (n - 1) 5) 0)

step-Waits :
    (s : Session) (c : Call) (n : ℕ)
    → Waits s n
    → Waits (step s c) (if opens s c then 0 else if fails s c then n + 1 else n)
unfolding step enter_backoff
step-Waits s c n h = ground arith

run-Waits : (s : Session) (cs : List Call) (n : ℕ) → Waits s n → Waits (run s cs) (attempts s n cs)
unfolding run attempts
run-Waits s [] n h = h
run-Waits s (c ∷ cs) n h = run-Waits (step s c) cs _ (step-Waits s c n h)

table-eq-capped_delay :
    (n : ℕ) → 0 < n → get_or backoff_milliseconds (min (n - 1) 5) 0 ≡ capped_delay n
table-eq-capped_delay zero h = absurd (omega arith)
table-eq-capped_delay (suc zero) h = refl
table-eq-capped_delay (suc (suc zero)) h = refl
table-eq-capped_delay (suc (suc (suc zero))) h = refl
table-eq-capped_delay (suc (suc (suc (suc zero)))) h = refl
table-eq-capped_delay (suc (suc (suc (suc (suc zero))))) h = refl
table-eq-capped_delay (suc (suc (suc (suc (suc (suc n)))))) h = rw last (omega (arith, large))
  where
    m : ℕ
    m = suc (suc (suc (suc (suc (suc n)))))

    last : min (m - 1) 5 ≡ 5
    last = omega arith

    large : 2 ^ 5 ≤ 2 ^ (m - 1)
    large = pow-le-pow_right {n = 2} (omega arith) {i = 5} (omega arith)

-- After any calls from start-up, a session that backs off waits 100 ms, doubled for each attempt
-- since the last opened session but the first, and capped at 2 s.
pub run-capped_delay :
    (cs : List Call)
    → (run fresh cs).state ≡ backoff
    → (0 < attempts fresh 0 cs)
      × ((run fresh cs).current_backoff_ms ≡ capped_delay (attempts fresh 0 cs))
run-capped_delay cs h = (d.0, d.1 ∙ table-eq-capped_delay _ d.0)
  where
    w : Waits (run fresh cs) (attempts fresh 0 cs)
    w = run-Waits fresh cs 0 (ground arith)

    d :
        (0 < attempts fresh 0 cs)
        × ((run fresh cs).current_backoff_ms
            ≡ get_or backoff_milliseconds (min (attempts fresh 0 cs - 1) 5) 0)
    d = w.delay h

table-bounded : (i : ℕ) → get_or backoff_milliseconds i 0 ≤ 2000
table-bounded zero = omega arith
table-bounded (suc zero) = omega arith
table-bounded (suc (suc zero)) = omega arith
table-bounded (suc (suc (suc zero))) = omega arith
table-bounded (suc (suc (suc (suc zero)))) = omega arith
table-bounded (suc (suc (suc (suc (suc zero))))) = omega arith
table-bounded (suc (suc (suc (suc (suc (suc i)))))) = omega arith

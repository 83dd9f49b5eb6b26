-- ===== src/Microros/Session/Generations.antt =====
-- Session generations and reconnects over any history of calls.
use Prim.Native.Nat.add
use native.Mathlib.Nat.{add-zero}
use mentor_pi_ros.Prelude.{
  ℕ, zero, suc, ◌+◌, ◌-◌, ◌%◌, ◌<◌, ◌≡◌, ◌≢◌, sym, ◌∙◌, Bool, ◌&&◌, List, [], ◌∷◌, min, arith,
  if◌then◌else◌, u32_max,
}
use mentor_pi_ros.Microros.Session.{
  active, create_entities, Session, Call, fresh, created, step, run, is_in,
}

-- A call that opened a session.
abbrev pub opens : Session → Call → Bool
opens s c = is_in s.state create_entities && is_in (step s c).state active

-- How many sessions a history opened.
pub openings : Session → List Call → ℕ
openings s [] = 0
openings s (c ∷ cs) = (if opens s c then 1 else 0) + openings (step s c) cs

-- The generation of the n-th session: 0 before the first, and a counter that skips 0 when it wraps.
abbrev pub generation_of : ℕ → ℕ
generation_of zero = 0
generation_of (suc n) = n % u32_max + 1

record Counted (s : Session) (n : ℕ) : Type 0 where
  generation : s.session_generation ≡ generation_of n
  reconnects : s.agent_reconnects ≡ min u32_max (n - 1)
  opened : s.state ≡ active → 0 < n

step-Counted :
    (s : Session) (c : Call) (n : ℕ)
    → Counted s n
    → Counted (step s c) ((if opens s c then 1 else 0) + n)
unfolding step
step-Counted s (created ok now) zero h = ground arith
step-Counted s (created ok now) (suc n) h = ground arith
step-Counted s c n h = ground arith

run-Counted :
    (s : Session) (cs : List Call) (n : ℕ) → Counted s n → Counted (run s cs) (openings s cs + n)
unfolding run openings
run-Counted s [] n h = rw add.zero h
run-Counted s (c ∷ cs) n h =
    rw regroup (run-Counted (step s c) cs ((if opens s c then 1 else 0) + n) (step-Counted s c n h))
  where
    regroup :
        (if opens s c then 1 else 0) + openings (step s c) cs + n
        ≡ openings (step s c) cs + ((if opens s c then 1 else 0) + n)
    regroup = omega arith

generation_of-ne-zero : (n : ℕ) → 0 < n → generation_of n ≢ 0
generation_of-ne-zero zero h e = absurd (omega arith)
generation_of-ne-zero (suc n) h e = omega arith

-- After any calls from start-up, the generation and the reconnect count are determined by the
-- number of sessions that were opened: the generation counts them, skipping 0 when it wraps, the
-- reconnects are all but the first, saturating, and an active session has a nonzero generation.
pub run-openings :
    (cs : List Call)
    → let s = run fresh cs in
      let n = openings fresh cs in
      (s.session_generation ≡ generation_of n)
      × (s.agent_reconnects ≡ min u32_max (n - 1))
      × (s.state ≡ active → (0 < n) × (s.session_generation ≢ 0))
run-openings cs = (
  h.generation,
  h.reconnects,
  λ a. (h.opened a, λ z. generation_of-ne-zero _ (h.opened a) (sym h.generation ∙ z)),
)
  where
    fresh-Counted : Counted fresh 0
    fresh-Counted = ground arith

    h : Counted (run fresh cs) (openings fresh cs)
    h = rw add-zero at (run-Counted fresh cs 0 fresh-Counted)

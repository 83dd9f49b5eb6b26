-- ===== src/Microros/Create/Order.antt =====
-- The creation cursor runs through a fixed plan and stays within the phase.
use mentor_pi_ros.Prelude.{
  ℕ, zero, suc, ◌+◌, ◌-◌, ◌*◌, ◌^◌, ◌≤◌, ◌<◌, ◌≡◌, ◌↔◌, refl, ◌⊎◌, inl, inr, true, List, [], ◌∷◌,
  ◌++◌, arith, add32, sub32, Bool-cases,
}
use mathlib.Core.List.{map}
use mentor_pi_ros.Microros.Clock.{operation_fits_in_phase}
use mentor_pi_ros.Microros.Create.{
  EntityCreateStepKind, support_init, set_context_create_timeout, set_context_destroy_timeout,
  node_init, publisher_init, set_publisher_timeout, subscription_init, service_init,
  set_service_timeout, executor_init, executor_add_subscription, executor_prime, initial_time_sync,
  complete, EntityCreateCursor, reset, current, advance, is_complete, current_operation_fits,
}

-- The calls left, counted from the end of the plan.
abbrev calls_left : EntityCreateStepKind → ℕ → ℕ
calls_left support_init index = 49
calls_left set_context_create_timeout index = 48
calls_left set_context_destroy_timeout index = 47
calls_left node_init index = 46
calls_left publisher_init index = 45 - 2 * index
calls_left set_publisher_timeout index = 44 - 2 * index
calls_left subscription_init index = 31 - index
calls_left service_init index = 24 - 2 * index
calls_left set_service_timeout index = 23 - 2 * index
calls_left executor_init index = 10
calls_left executor_add_subscription index = 9 - index
calls_left executor_prime index = 2
calls_left initial_time_sync index = 1
calls_left complete index = 0

-- The milliseconds that they may take.
abbrev budget_left : EntityCreateStepKind → ℕ → ℕ
budget_left executor_prime index = 21
budget_left initial_time_sync index = 20
budget_left complete index = 0
budget_left kind index = (calls_left kind index - 2) * 40 + 21

record OnPlan (c : EntityCreateCursor) : Type 0 where
  running : c.started ≡ true
  in_range : c.index < 7

abbrev remaining : EntityCreateCursor → ℕ
remaining c = calls_left c.kind c.index

advance-OnPlan :
    (c : EntityCreateCursor)
    → OnPlan c
    → OnPlan (advance c)
      × (remaining (advance c) ≡ remaining c - 1)
      × (is_complete c ≡ true ↔ remaining c ≡ 0)
      × ((advance c).phase_start_ms ≡ c.phase_start_ms)
      × (budget_left c.kind c.index
          ≡ budget_left (advance c).kind (advance c).index + (current c).deadline_ms)
unfolding advance is_complete current
advance-OnPlan c h = ground arith

pub advances : ℕ → EntityCreateCursor → EntityCreateCursor
advances zero c = c
advances (suc n) c = advances n (advance c)

reset-OnPlan : (t : ℕ) → OnPlan (reset t) × (remaining (reset t) ≡ 49)
unfolding reset
reset-OnPlan t = ground arith

is_complete-advances :
    (n : ℕ) (c : EntityCreateCursor)
    → OnPlan c
    → (is_complete (advances n c) ≡ true) ↔ (remaining c ≤ n)
unfolding advances
is_complete-advances zero c h = ground (arith, advance-OnPlan c h)
is_complete-advances (suc n) c h =
    let after = advance-OnPlan c h in
    let rest = is_complete-advances n (advance c) after.0 in
    (λ e. omega (arith, rest.0 e), λ le. rest.1 (omega arith))

-- The entities that the first `n` steps are about.
pub visited : ℕ → EntityCreateCursor → List (EntityCreateStepKind × ℕ)
visited zero c = []
visited (suc n) c = ((current c).kind, (current c).index) ∷ visited n (advance c)

abbrev indices : List ℕ
indices = 0 ∷ 1 ∷ 2 ∷ 3 ∷ 4 ∷ 5 ∷ 6 ∷ []

abbrev each : EntityCreateStepKind → List (EntityCreateStepKind × ℕ)
each kind = map (λ i. (kind, i)) indices

abbrev each_pair :
    EntityCreateStepKind → EntityCreateStepKind → List ℕ → List (EntityCreateStepKind × ℕ)
each_pair first second [] = []
each_pair first second (i ∷ is) = (first, i) ∷ (second, i) ∷ each_pair first second is

-- The plan: the context, the node, each publisher with its timeout, each subscription, each service
-- with its timeout, then the executor with each subscription, its first spin and the time.
abbrev pub creation_plan : List (EntityCreateStepKind × ℕ)
creation_plan =
    ((support_init, 0)
      ∷ (set_context_create_timeout, 0)
      ∷ (set_context_destroy_timeout, 0)
      ∷ (node_init, 0)
      ∷ [])
    ++ each_pair publisher_init set_publisher_timeout indices
    ++ each subscription_init
    ++ each_pair service_init set_service_timeout indices
    ++ ((executor_init, 0) ∷ [])
    ++ each executor_add_subscription
    ++ ((executor_prime, 0) ∷ (initial_time_sync, 0) ∷ [])

-- The 49 calls are the plan, in its order.
pub visited-eq-creation_plan : (t : ℕ) → visited 49 (reset t) ≡ creation_plan
unfolding visited current advance reset
visited-eq-creation_plan t = refl

-- Each call takes at most its declared time and one millisecond.
abbrev pub IsTimely : EntityCreateCursor → List ℕ → Type 0
IsTimely c [] = Unit {0}
IsTimely c (taken ∷ later) = (taken ≤ (current c).deadline_ms + 1) × IsTimely (advance c) later

-- Each call is admitted when it comes up, until there is none left.
abbrev pub AllAdmitted : EntityCreateCursor → ℕ → List ℕ → Type 0
AllAdmitted c now [] = Unit {0}
AllAdmitted c now (taken ∷ later) =
    ((is_complete c ≡ true) ⊎ (current_operation_fits c now ≡ true))
    × AllAdmitted (advance c) (add32 now taken) later

admit-OnPlan :
    (c : EntityCreateCursor) (now : ℕ)
    → OnPlan c
    → sub32 now c.phase_start_ms + budget_left c.kind c.index < 2000
    → (is_complete c ≡ true) ⊎ (current_operation_fits c now ≡ true)
unfolding current_operation_fits operation_fits_in_phase current
admit-OnPlan c now h room = ground (arith, advance-OnPlan c h)

-- What is left of the phase covers what is left of the plan.
abbrev HasRoom : EntityCreateCursor → ℕ → Type 0
HasRoom c now =
    (is_complete c ≡ true)
    ⊎ (sub32 now c.phase_start_ms + budget_left c.kind c.index + remaining c < 2000)

advance-HasRoom :
    (c : EntityCreateCursor) (now taken : ℕ)
    → OnPlan c
    → now < 2 ^ 32
    → c.phase_start_ms < 2 ^ 32
    → HasRoom c now
    → taken ≤ (current c).deadline_ms + 1
    → HasRoom (advance c) (add32 now taken)
advance-HasRoom c now taken h hn hp room t =
    let after = advance-OnPlan c h in
    let next = advance-OnPlan (advance c) after.0 in
    elim (Bool-cases (is_complete c)) [
      | inl done ↦ inl (next.2.1 (omega (arith, after.2.0 done)))
      | inr more ↦ ground (arith, after, next)
    ]

timely-AllAdmitted :
    (c : EntityCreateCursor) (now : ℕ) (taken : List ℕ)
    → OnPlan c
    → now < 2 ^ 32
    → c.phase_start_ms < 2 ^ 32
    → HasRoom c now
    → IsTimely c taken
    → AllAdmitted c now taken
timely-AllAdmitted c now [] h hn hp room t = tt
timely-AllAdmitted c now (taken ∷ later) h hn hp room t = (
  elim room [ inl done ↦ inl done | inr left ↦ admit-OnPlan c now h (omega arith) ],
  timely-AllAdmitted (advance c) (add32 now taken) later (advance-OnPlan c h).0 (omega arith)
      (omega (arith, advance-OnPlan c h)) (advance-HasRoom c now taken h hn hp room t.0) t.1,
)

-- Creation that starts at any time, also across a wrap of the clock, is never cut short by the
-- deadline of the phase while each call takes at most its declared time and one millisecond.
pub timely_creation_admitted :
    (phase_start : ℕ) (taken : List ℕ)
    → phase_start < 2 ^ 32
    → IsTimely (reset phase_start) taken
    → AllAdmitted (reset phase_start) phase_start taken
timely_creation_admitted phase_start taken h t =
    timely-AllAdmitted (reset phase_start) phase_start taken (reset-OnPlan phase_start).0 h
      (unfold reset in h) (inr (unfold reset in ground arith)) t

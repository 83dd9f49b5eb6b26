-- ===== src/Microros/Destroy/Order.antt =====
-- The destruction cursor ends, and finalizes what the creation cursor made, in reverse order.
use mentor_pi_ros.Prelude.{
  ℕ, zero, suc, ◌+◌, ◌-◌, ◌≤◌, ◌≡◌, ◌≢◌, ◌↔◌, refl, sym, ap, ◌∙◌, true, List, [], ◌∷◌, arith,
  if◌then◌else◌,
}
use mentor_pi_ros.Microros.Create
use mentor_pi_ros.Microros.Create.{EntityCreateStepKind}
use mentor_pi_ros.Microros.Create.Order
use mentor_pi_ros.Microros.Destroy.{
  EntityDestroyStepKind, set_context_destroy_timeout, executor_fini, service_fini,
  subscription_fini, publisher_fini, node_fini, support_fini, disable_remote_waits, complete,
  EntityDestroyCursor, reset, current, advance, is_complete,
}

-- The calls left of the plan, counted from its end.
abbrev pub calls_left : EntityDestroyStepKind → ℕ → ℕ
calls_left set_context_destroy_timeout index = 25
calls_left executor_fini index = 24
calls_left service_fini index = 17 + index
calls_left subscription_fini index = 10 + index
calls_left publisher_fini index = 3 + index
calls_left node_fini index = 2
calls_left support_fini index = 1
calls_left disable_remote_waits index = 0
calls_left complete index = 0

-- With a pending timeout change one more.
abbrev pub remaining : EntityDestroyCursor → ℕ
remaining c = (if c.disable_remote_waits_pending then 1 else 0) + calls_left c.kind c.index

pub record OnPlan (c : EntityDestroyCursor) : Type 0 where
  pub running : c.started ≡ true
  pub planned : c.kind ≢ disable_remote_waits

pub advance-OnPlan :
    (c : EntityDestroyCursor)
    → OnPlan c
    → OnPlan (advance c)
      × (remaining (advance c) ≡ remaining c - 1)
      × ((is_complete c ≡ true) ↔ (remaining c ≡ 0))
unfolding advance is_complete
advance-OnPlan c h = ground arith

unfoldable pub advances : ℕ → EntityDestroyCursor → EntityDestroyCursor
advances zero c = c
advances (suc n) c = advances n (advance c)

-- A cursor on its plan completes after exactly its remaining calls.
pub is_complete-advances :
    (n : ℕ) (c : EntityDestroyCursor)
    → OnPlan c
    → (is_complete (advances n c) ≡ true) ↔ (remaining c ≤ n)
unfolding advances
is_complete-advances zero c h = ground (arith, advance-OnPlan c h)
is_complete-advances (suc n) c h =
    let after = advance-OnPlan c h in
    let rest = is_complete-advances n (advance c) after.0 in
    (λ e. omega (arith, rest.0 e), λ le. rest.1 (omega arith))

unfoldable pub visited : ℕ → EntityDestroyCursor → List (EntityDestroyStepKind × ℕ)
visited zero c = []
visited (suc n) c = ((current c).kind, (current c).index) ∷ visited n (advance c)

pub data Entity : Type 0 where
  support node executor : Entity
  publisher subscription service : ℕ → Entity

-- The entity that a creation step brings into being; the other steps configure one.
made : EntityCreateStepKind × ℕ → List Entity → List Entity
made (EntityCreateStepKind.support_init, i) later = support ∷ later
made (EntityCreateStepKind.node_init, i) later = node ∷ later
made (EntityCreateStepKind.publisher_init, i) later = publisher i ∷ later
made (EntityCreateStepKind.subscription_init, i) later = subscription i ∷ later
made (EntityCreateStepKind.service_init, i) later = service i ∷ later
made (EntityCreateStepKind.executor_init, i) later = executor ∷ later
made _ later = later

unfoldable pub finalized : EntityDestroyStepKind × ℕ → List Entity → List Entity
finalized (executor_fini, i) later = executor ∷ later
finalized (service_fini, i) later = service i ∷ later
finalized (subscription_fini, i) later = subscription i ∷ later
finalized (publisher_fini, i) later = publisher i ∷ later
finalized (node_fini, i) later = node ∷ later
finalized (support_fini, i) later = support ∷ later
finalized _ later = later

-- Latest first.
pub made_in_reverse : List (EntityCreateStepKind × ℕ) → List Entity → List Entity
unfolding made
made_in_reverse [] earlier = earlier
made_in_reverse (s ∷ steps) earlier = made_in_reverse steps (made s earlier)

unfoldable pub finalized_in_order : List (EntityDestroyStepKind × ℕ) → List Entity
unfolding finalized
finalized_in_order [] = []
finalized_in_order (s ∷ steps) = finalized s (finalized_in_order steps)

finalized_plan :
    (destroyed_at : ℕ)
    → finalized_in_order (visited 25 (reset destroyed_at))
      ≡ made_in_reverse Create.Order.creation_plan []
unfolding finalized_in_order visited current advance reset made_in_reverse
finalized_plan destroyed_at = refl

-- The 25 calls of a destruction (kLifecycleDestroyBoundaryCount) complete it and finalize exactly
-- the entities that the 49 calls of a creation make, each once, the latest first.
pub destruction_reverses_creation :
    (created_at destroyed_at : ℕ)
    → (finalized_in_order (visited 25 (reset destroyed_at))
        ≡ made_in_reverse (Create.Order.visited 49 (Create.reset created_at)) [])
      × (is_complete (advances 25 (reset destroyed_at)) ≡ true)
destruction_reverses_creation created_at destroyed_at = (
  finalized_plan destroyed_at
      ∙ ap (λ plan. made_in_reverse plan [])
          (sym (Create.Order.visited-eq-creation_plan created_at)),
  (is_complete-advances 25 (reset destroyed_at)
        (unfold reset in record { running = refl; planned = λ e. cc })).1
      (unfold reset in omega arith),
)

-- ===== src/Microros/Destroy/Abandon.antt =====
-- Giving up the remote waits costs one local call and skips no finalizer.
use mentor_pi_ros.Prelude.{ℕ, zero, suc, ◌+◌, ◌≤◌, ◌≡◌, refl, ap, ◌∙◌, true, false, ◌∷◌, arith}
use mentor_pi_ros.Microros.Destroy.{
  disable_remote_waits, set_context_destroy_timeout, EntityDestroyCursor,
  skip_initial_timeout_if_pending, request_remote_wait_abandon, current, advance, is_complete,
}
use mentor_pi_ros.Microros.Destroy.Order.{
  OnPlan, remaining, advances, visited, finalized, finalized_in_order, advance-OnPlan,
  is_complete-advances,
}

-- The finalizers to come depend on nothing but the step.
visited_step :
    (n : ℕ) (c d : EntityDestroyCursor)
    → c.kind ≡ d.kind
    → c.index ≡ d.index
    → c.started ≡ d.started
    → c.disable_remote_waits_pending ≡ false
    → d.disable_remote_waits_pending ≡ false
    → visited n c ≡ visited n d
unfolding visited current advance
visited_step zero c d k i s p q = refl
visited_step (suc n) c d k i s p q = ground (arith, visited_step n (advance c) (advance d))

request-OnPlan :
    (c : EntityDestroyCursor)
    → OnPlan c
    → is_complete c ≡ false
    → c.remote_waits_abandoned ≡ false
    → c.disable_remote_waits_pending ≡ false
    → OnPlan (request_remote_wait_abandon c)
      × (remaining (request_remote_wait_abandon c) ≤ remaining c + 1)
unfolding request_remote_wait_abandon skip_initial_timeout_if_pending
request-OnPlan c h i a p = ground arith

-- Where the plan goes on without remote waits: at the step where it stood, or behind the change of
-- the destroy timeout when that was still to come.
unfoldable pub past_timeout : EntityDestroyCursor → EntityDestroyCursor
unfolding advance
past_timeout c = elim (c.kind) [ set_context_destroy_timeout ↦ advance c | _ ↦ c ]

-- Calls after the last one finalize nothing.
finalized-suc :
    (n : ℕ) (c : EntityDestroyCursor)
    → OnPlan c
    → remaining c ≤ n
    → finalized_in_order (visited (suc n) c) ≡ finalized_in_order (visited n c)
unfolding visited current finalized_in_order finalized
finalized-suc zero c h le = ground arith
finalized-suc (suc n) c h le =
    let after = advance-OnPlan c h in
    ap (finalized ((current c).kind, (current c).index))
      (finalized-suc n (advance c) after.0 (omega (arith, after.1)))

abandoned_plan :
    (n : ℕ) (c : EntityDestroyCursor)
    → OnPlan c
    → is_complete c ≡ false
    → c.remote_waits_abandoned ≡ false
    → c.disable_remote_waits_pending ≡ false
    → visited (suc n) (request_remote_wait_abandon c)
      ≡ (disable_remote_waits, 0) ∷ visited n (past_timeout c)
unfolding visited current advance request_remote_wait_abandon skip_initial_timeout_if_pending
    past_timeout
abandoned_plan n c h i a p =
    ground (arith, visited_step n (advance (request_remote_wait_abandon c)) (past_timeout c))

-- The change of the destroy timeout finalizes nothing.
finalized-past_timeout :
    (n : ℕ) (c : EntityDestroyCursor)
    → OnPlan c
    → remaining c ≤ n
    → c.disable_remote_waits_pending ≡ false
    → finalized_in_order (visited n (past_timeout c)) ≡ finalized_in_order (visited n c)
unfolding past_timeout visited current finalized_in_order finalized
finalized-past_timeout n c h le p = ground (arith, finalized-suc n c h le)

-- A request to abandon, at any step of the plan where it can still be made, inserts the one local
-- call that disables remote waits; then the plan goes on at the step where it stood (behind the
-- change of the destroy timeout, if that was still to come). When there are as many calls as the
-- plan had left, the entities finalized are those that would have been without the request, in the
-- same order, and one call more completes the destruction.
pub abandon_keeps_finalizers :
    (n : ℕ) (c : EntityDestroyCursor)
    → OnPlan c
    → is_complete c ≡ false
    → c.remote_waits_abandoned ≡ false
    → c.disable_remote_waits_pending ≡ false
    → remaining c ≤ n
    → let c' = request_remote_wait_abandon c in
      (visited (suc n) c' ≡ (disable_remote_waits, 0) ∷ visited n (past_timeout c))
      × (finalized_in_order (visited (suc n) c') ≡ finalized_in_order (visited n c))
      × ((advance c').remote_waits_abandoned ≡ true)
      × (is_complete (advances (suc n) c') ≡ true)
abandon_keeps_finalizers n c h i a p le = (
  abandoned_plan n c h i a p,
  ap finalized_in_order (abandoned_plan n c h i a p)
      ∙ unfold finalized_in_order finalized in finalized-past_timeout n c h le p,
  unfold request_remote_wait_abandon advance in ground arith,
  (is_complete-advances (suc n) (request_remote_wait_abandon c) (request-OnPlan c h i a p).0).1
      (omega (arith, (request-OnPlan c h i a p).1)),
)

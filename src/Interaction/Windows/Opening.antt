-- ===== src/Interaction/Windows/Opening.antt =====
-- The checks of a window at its opening, backend/game/internal/game/rules.go, event.go and
-- model.go.
use munchkin.Shared.{
  pos, ◌+ℤ◌, ◌-ℤ◌, ◌≤ℤ◌, ◌<ℤ◌, +ℤ_parts, -ℤ_parts, seconds, seconds_parts, ◌≡◌, refl, arith, done,
  add_seconds, true, false, String, String-Eq, List, [], ◌∷◌, some, lookup, lookup-insert, contains,
  is_empty, String-discrete, ℕ_discrete, ℤ-discrete, ℤ-Eq,
}
use munchkin.Model.{
  InteractionWindow, InteractionResponse, InteractionResponseState, InteractionIntent-discrete,
  InteractionResponseState-discrete, InteractionResponseRequirement-discrete,
}
use munchkin.Validation.Responses.{validate_interaction_response, valid_interaction_intent}
use munchkin.Validation.Windows.{check_intents}
use munchkin.Validation.Deadlines.{
  validate_interaction_deadline, malformed_deadline, malformed_extension, beyond_cap,
}
use munchkin.Interaction.Deadlines.{addressed_interaction_deadline_policy}
use munchkin.Interaction.Deadlines.Steps.{deadline_checks, beyond_cap_iff}
use munchkin.Interaction.Windows.{
  WindowSpec, new_window, all_pending, accept_or_decline, pass_or_respond, must_decline, may_pass,
  must_resolve, respond_or_resolve,
}
use munchkin.Interaction.Events.{malformed_opening}

-- The checks of a window that concern it alone, at its opening.
pub record WellOpened (w : InteractionWindow) : Type 0 where
  pub deadline : validate_interaction_deadline w ≡ done
  pub intents : check_intents [] w.allowed_intents ≡ done
  pub opening : malformed_opening w ≡ false
  pub asked : is_empty w.eligible_actor_ids ≡ false
  pub responses :
      (a : String)
      → contains w.eligible_actor_ids a ≡ true
      → (r : InteractionResponse) × (lookup a w.responses ≡ some r)
        × (r.state ≡ InteractionResponseState.pending)
        × (validate_interaction_response r w.allowed_intents ≡ done)

lookup-all_pending :
    (a : String) (r : InteractionResponse) (actors : List String)
    → contains actors a ≡ true
    → lookup a (all_pending r actors) ≡ some r
unfolding all_pending contains
lookup-all_pending a r [] h = cc
lookup-all_pending a r (x ∷ xs) h =
    ground (arith, lookup-insert x a r (all_pending r xs), lookup-all_pending a r xs)

-- The specification of a window whose opening is in order.
pub record GoodSpec (o : WindowSpec) : Type 0 where
  pub intents : check_intents [] o.intents ≡ done
  pub asked : is_empty o.actors ≡ false
  pub pending : o.response.state ≡ InteractionResponseState.pending
  pub response : validate_interaction_response o.response o.intents ≡ done
  pub deadline : o.deadline_at ≡ add_seconds o.opened_at o.policy.base_seconds
  pub base_pos : pos 0 <ℤ o.policy.base_seconds
  pub base_max : o.policy.base_seconds ≤ℤ o.policy.max_seconds
  pub late_nonneg : pos 0 ≤ℤ o.policy.late_threshold_seconds
  pub step_nonneg : pos 0 ≤ℤ o.policy.extension_step_seconds
  pub budget : o.budget ≡ o.policy.max_seconds -ℤ o.policy.base_seconds
  pub extension : malformed_extension o.policy o.budget ≡ false

module _ (o : WindowSpec) (g : GoodSpec o) (later : pos 0 <ℤ o.opened_at) where
  deadline_later : o.opened_at <ℤ o.deadline_at
  deadline_later = rw g.deadline (
      omega (
        arith,
        g.base_pos,
        +ℤ_parts o.opened_at (seconds o.policy.base_seconds),
        seconds_parts o.policy.base_seconds,
      ))

  good-malformed_deadline : malformed_deadline (new_window o) ≡ false
  unfolding malformed_deadline
  good-malformed_deadline = ground (
    arith,
    deadline_later,
    g.base_pos,
    g.base_max,
    g.late_nonneg,
    g.step_nonneg,
    g.budget,
    -ℤ_parts o.policy.max_seconds o.policy.base_seconds,
  )

  good-beyond_cap : beyond_cap (new_window o) ≡ false
  good-beyond_cap = (beyond_cap_iff (new_window o)).1 (
    rw g.deadline (
        omega (
          arith,
          g.base_max,
          +ℤ_parts o.opened_at (seconds o.policy.base_seconds),
          +ℤ_parts o.opened_at (seconds o.policy.max_seconds),
          seconds_parts o.policy.base_seconds,
          seconds_parts o.policy.max_seconds,
        )),
    rw (g.deadline, g.budget)
        (omega (
          arith,
          g.base_max,
          +ℤ_parts o.opened_at (seconds o.policy.base_seconds),
          +ℤ_parts o.opened_at (seconds o.policy.max_seconds),
          seconds_parts o.policy.base_seconds,
          seconds_parts o.policy.max_seconds,
          -ℤ_parts o.policy.max_seconds o.policy.base_seconds,
          seconds_parts (o.policy.max_seconds -ℤ o.policy.base_seconds),
          +ℤ_parts (o.opened_at +ℤ seconds o.policy.base_seconds)
              (seconds (o.policy.max_seconds -ℤ o.policy.base_seconds)),
        )),
  )

  pub new_window-WellOpened : WellOpened (new_window o)
  unfolding malformed_opening
  new_window-WellOpened = record {
    deadline =
        (deadline_checks (new_window o)).1 (good-malformed_deadline, g.extension, good-beyond_cap);
    intents = g.intents;
    opening = ground (arith, g.deadline);
    asked = g.asked;
    responses =
        λ a h. (o.response, lookup-all_pending a o.response o.actors h, g.pending, g.response);
  }

-- The specifications of the rules, which differ in the policy and in the actors.
pub fixed-GoodSpec :
    (o : WindowSpec)
    → o.policy ≡ addressed_interaction_deadline_policy
    → o.budget ≡ pos 0
    → o.deadline_at ≡ add_seconds o.opened_at o.policy.base_seconds
    → is_empty o.actors ≡ false
    → o.response.state ≡ InteractionResponseState.pending
    → check_intents [] o.intents ≡ done
    → validate_interaction_response o.response o.intents ≡ done
    → GoodSpec o
unfolding addressed_interaction_deadline_policy malformed_extension ◌-ℤ◌
fixed-GoodSpec o p b d a s i r = record {
  intents = i;
  asked = a;
  pending = s;
  response = r;
  deadline = d;
  base_pos = rw p (omega arith);
  base_max = rw p (omega arith);
  late_nonneg = rw p (omega arith);
  step_nonneg = rw p (omega arith);
  budget = rw (p, b);
  extension = rw (p, b) (ground arith);
}

pub intents_checked :
    (check_intents [] accept_or_decline ≡ done)
    × (check_intents [] pass_or_respond ≡ done)
    × (check_intents [] respond_or_resolve ≡ done)
unfolding check_intents valid_interaction_intent contains InteractionIntent-discrete
intents_checked = (refl, refl, refl)

pub responses_checked :
    (validate_interaction_response must_decline accept_or_decline ≡ done)
    × (validate_interaction_response may_pass pass_or_respond ≡ done)
    × (validate_interaction_response must_resolve respond_or_resolve ≡ done)
unfolding validate_interaction_response contains InteractionIntent-discrete
    InteractionResponseState-discrete InteractionResponseRequirement-discrete String-discrete
    ℤ-discrete ℕ_discrete
responses_checked = (refl, refl, refl)

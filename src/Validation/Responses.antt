-- ===== src/Validation/Responses.antt =====
-- The responses of an interaction window, backend/game/internal/game/model.go.
use munchkin.Shared.{
  String, Bool, true, false, not, ◌&&◌, ◌||◌, List, none, some, lookup, all, any, contains, ◌==◌,
  ◌!=◌, Check, fail_when, ◌>>◌, is_zero, zero_time, ℤ-Eq,
}
use munchkin.Shared.{illegal_command}
use munchkin.Model.{
  InteractionResponse, InteractionWindow, InteractionIntent, InteractionIntent-Eq,
  InteractionResponseState, InteractionResponseState-Eq, InteractionResponseRequirement,
  InteractionResponseRequirement-Eq, InteractionKind, InteractionSubjectKind,
  InteractionEligibilityPolicy, InteractionCloseReason, Phase,
}

unfoldable pub valid_phase : Phase → Bool
valid_phase (Phase.other _) = false
valid_phase _ = true

unfoldable pub valid_interaction_kind : InteractionKind → Bool
valid_interaction_kind (InteractionKind.other _) = false
valid_interaction_kind _ = true

unfoldable pub valid_interaction_subject_kind : InteractionSubjectKind → Bool
valid_interaction_subject_kind (InteractionSubjectKind.other _) = false
valid_interaction_subject_kind _ = true

unfoldable pub valid_interaction_eligibility_policy : InteractionEligibilityPolicy → Bool
valid_interaction_eligibility_policy (InteractionEligibilityPolicy.other _) = false
valid_interaction_eligibility_policy _ = true

-- The two intents of combat help are not in the list of the source.
unfoldable pub valid_interaction_intent : InteractionIntent → Bool
valid_interaction_intent (InteractionIntent.other _) = false
valid_interaction_intent InteractionIntent.offer_help = false
valid_interaction_intent InteractionIntent.cancel_help = false
valid_interaction_intent _ = true

unfoldable pub valid_interaction_close_reason : InteractionCloseReason → Bool
valid_interaction_close_reason (InteractionCloseReason.other _) = false
valid_interaction_close_reason _ = true

-- Go's zero value, which a map yields for a missing key.
abbrev pub zero_response : InteractionResponse
zero_response = record {
  requirement = InteractionResponseRequirement.other "";
  timeout_intent = InteractionIntent.other "";
  state = InteractionResponseState.other "";
  intent = InteractionIntent.other "";
  accepted_at = zero_time;
}

-- `window.Responses[actorID]`.
unfoldable pub response_of : InteractionWindow → String → InteractionResponse
response_of w actor_id = elim (lookup actor_id w.responses) [ none ↦ zero_response | some r ↦ r ]

unfoldable pub interaction_all_responded : InteractionWindow → Bool
interaction_all_responded w =
    all (λ a. (response_of w a).state != InteractionResponseState.pending) w.eligible_actor_ids

unfoldable pub interaction_has_response_state : InteractionWindow → InteractionResponseState → Bool
interaction_has_response_state w s = any (λ a. (response_of w a).state == s) w.eligible_actor_ids

-- The first `switch` of `validateInteractionResponse`.
malformed_requirement : InteractionResponseRequirement → InteractionIntent → Bool
malformed_requirement InteractionResponseRequirement.optional t = t != InteractionIntent.pass
malformed_requirement InteractionResponseRequirement.mandatory t =
    t != InteractionIntent.auto_resolve && t != InteractionIntent.decline
malformed_requirement (InteractionResponseRequirement.other _) t = true

-- Its second one.
malformed_outcome : InteractionResponseState → InteractionResponse → Bool
malformed_outcome InteractionResponseState.pending r =
    r.intent != InteractionIntent.other "" || not (is_zero r.accepted_at)
malformed_outcome InteractionResponseState.passed r =
    r.intent != InteractionIntent.pass || is_zero r.accepted_at
malformed_outcome InteractionResponseState.acted r =
    r.intent != InteractionIntent.respond || is_zero r.accepted_at
malformed_outcome InteractionResponseState.accepted r =
    r.intent != InteractionIntent.accept || is_zero r.accepted_at
malformed_outcome InteractionResponseState.declined r =
    r.intent != InteractionIntent.decline || is_zero r.accepted_at
malformed_outcome InteractionResponseState.timed_out r =
    r.requirement != InteractionResponseRequirement.optional
    || (r.intent != InteractionIntent.pass || is_zero r.accepted_at)
malformed_outcome InteractionResponseState.auto_resolved r =
    r.requirement != InteractionResponseRequirement.mandatory
    || (r.intent != r.timeout_intent || is_zero r.accepted_at)
malformed_outcome (InteractionResponseState.other _) r = true

-- `validateInteractionResponse`; `allowed` are the intents of the window.
unfoldable pub validate_interaction_response : InteractionResponse → List InteractionIntent → Check
unfolding malformed_requirement malformed_outcome
validate_interaction_response r allowed = do
  fail_when (malformed_requirement r.requirement r.timeout_intent) illegal_command
  fail_when (not (contains allowed r.timeout_intent)) illegal_command
  fail_when (malformed_outcome r.state r) illegal_command
  fail_when (r.intent != InteractionIntent.other "" && not (contains allowed r.intent))
      illegal_command

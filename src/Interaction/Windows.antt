-- ===== src/Interaction/Windows.antt =====
-- The windows that the game opens, backend/game/internal/game/rules.go.
pub mod Opening
pub mod Rules
use munchkin.Shared.{
  ℕ, ◌+◌, ◌*◌, ◌/◌, ℤ, ℤ-Eq, pos, negsuc, ◌+ℤ◌, ◌-ℤ◌, ltb_ℤ, String, String-Eq, Bool, true, false,
  not, ◌&&◌, ◌||◌, ◌==◌, ◌!=◌, if◌then◌else◌, List, [], ◌∷◌, map, keep, is_empty, Option, none,
  some, insert, Map, Result, ok, err, fail_when, or_fail, ◌>>=◌, ◌>>◌, Time, zero_time, is_zero,
  before, add_seconds, nanos,
}
use munchkin.Shared.{illegal_command}
use munchkin.Model.{
  State, Encounter, Phase, InteractionWindow, InteractionParent, InteractionDeadlinePolicy,
  InteractionResponse, InteractionKind, InteractionKind-Eq, InteractionSubjectKind,
  InteractionSubjectKind-Eq, InteractionEligibilityPolicy, InteractionIntent,
  InteractionResponseRequirement, InteractionResponseState, InteractionWindowStatus,
  InteractionWindowStatus-Eq, InteractionCloseReason, EconomyOffer, TheftAttempt, CombatHelpOffer,
}
use munchkin.Interaction.Deadlines.{
  collective_interaction_deadline_policy, addressed_interaction_deadline_policy, whole_seconds,
}

-- A response that is still open, with what a timeout makes of it.
abbrev pub pending_response :
    InteractionResponseRequirement → InteractionIntent → InteractionResponse
pending_response requirement timeout_intent = record {
  requirement = requirement;
  timeout_intent = timeout_intent;
  state = InteractionResponseState.pending;
  intent = InteractionIntent.other "";
  accepted_at = zero_time;
}

-- One such response for every actor.
unfoldable pub all_pending : InteractionResponse → List String → Map InteractionResponse
all_pending r [] = []
all_pending r (a ∷ as_) = insert a r (all_pending r as_)

-- The parts that differ between the windows.
pub record WindowSpec : Type 0 where
  pub id : String
  pub kind : InteractionKind
  pub parent : InteractionParent
  pub initiator : String
  pub eligibility : InteractionEligibilityPolicy
  pub intents : List InteractionIntent
  pub actors : List String
  pub opened_at : Time
  pub deadline_at : Time
  pub policy : InteractionDeadlinePolicy
  pub budget : ℤ
  pub response : InteractionResponse

-- The literal `&InteractionWindow{...}`, with revision 1 and the status open.
abbrev pub new_window : WindowSpec → InteractionWindow
new_window o = record {
  id = o.id;
  kind = o.kind;
  parent = o.parent;
  initiator_actor_id = o.initiator;
  eligibility_policy = o.eligibility;
  allowed_intents = o.intents;
  eligible_actor_ids = o.actors;
  opened_at = o.opened_at;
  deadline_at = o.deadline_at;
  deadline_revision = 1;
  deadline_policy = o.policy;
  extension_budget_seconds = o.budget;
  responses = all_pending o.response o.actors;
  status = InteractionWindowStatus.opened;
  close_reason = InteractionCloseReason.other "";
  closed_at = zero_time;
}

abbrev pub accept_or_decline : List InteractionIntent
accept_or_decline = InteractionIntent.accept ∷ InteractionIntent.decline ∷ []

abbrev pub pass_or_respond : List InteractionIntent
pass_or_respond = InteractionIntent.pass ∷ InteractionIntent.respond ∷ []

abbrev pub must_decline : InteractionResponse
must_decline = pending_response InteractionResponseRequirement.mandatory InteractionIntent.decline

abbrev pub may_pass : InteractionResponse
may_pass = pending_response InteractionResponseRequirement.optional InteractionIntent.pass

abbrev pub respond_or_resolve : List InteractionIntent
respond_or_resolve = InteractionIntent.respond ∷ InteractionIntent.auto_resolve ∷ []

abbrev pub must_resolve : InteractionResponse
must_resolve =
    pending_response InteractionResponseRequirement.mandatory InteractionIntent.auto_resolve

abbrev pub turn_parent : Phase → State → InteractionParent
turn_parent phase s = record {
  phase = phase;
  subject_kind = InteractionSubjectKind.turn;
  subject_id = s.turn.player_id;
  parent_interaction_id = "";
}

-- The living players but one, in the order of the table: `targetResponseActors`.
unfoldable pub target_response_actors : State → String → List String
target_response_actors s initiator_id =
    map (λ p. p.id) (keep (λ p. p.id != initiator_id && not p.dead) s.players)

unfoldable pub combat_response_actors : State → List String
combat_response_actors s =
    map (λ p. p.id) (keep (λ p. p.id != s.turn.player_id && not p.dead) s.players)

unfoldable pub economy_offer_spec : State → EconomyOffer → Time → WindowSpec
unfolding addressed_interaction_deadline_policy
economy_offer_spec s offer opened_at = record {
  id = offer.id;
  kind = InteractionKind.economy_offer;
  parent = turn_parent offer.parent_phase s;
  initiator = offer.offerer_player_id;
  eligibility = InteractionEligibilityPolicy.actor_private;
  intents = accept_or_decline;
  actors = offer.recipient_player_id ∷ [];
  opened_at = opened_at;
  deadline_at = add_seconds opened_at addressed_interaction_deadline_policy.base_seconds;
  policy = addressed_interaction_deadline_policy;
  budget = pos 0;
  response = must_decline;
}

unfoldable pub economy_offer_window : State → EconomyOffer → Time → Result InteractionWindow
unfolding economy_offer_spec
economy_offer_window s offer opened_at = do
  fail_when
      (offer.id == ""
        || (offer.offerer_player_id == ""
            || (offer.recipient_player_id == "" || is_zero opened_at)))
      illegal_command
  ok (new_window (economy_offer_spec s offer opened_at))

unfoldable pub charity_transfer_spec : State → String → Time → WindowSpec
unfolding addressed_interaction_deadline_policy
charity_transfer_spec s interaction_id opened_at = record {
  id = interaction_id;
  kind = InteractionKind.charity_transfer;
  parent = turn_parent Phase.charity s;
  initiator = s.turn.player_id;
  eligibility = InteractionEligibilityPolicy.actor_private;
  intents = respond_or_resolve;
  actors = s.turn.player_id ∷ [];
  opened_at = opened_at;
  deadline_at = add_seconds opened_at addressed_interaction_deadline_policy.base_seconds;
  policy = addressed_interaction_deadline_policy;
  budget = pos 0;
  response = must_resolve;
}

unfoldable pub charity_transfer_window : State → String → Time → Result InteractionWindow
unfolding charity_transfer_spec
charity_transfer_window s interaction_id opened_at = do
  fail_when (interaction_id == "" || (is_zero opened_at || s.turn.player_id == "")) illegal_command
  ok (new_window (charity_transfer_spec s interaction_id opened_at))

-- The loop of the source collects the same actors as `targetResponseActors`.
unfoldable pub theft_response_spec : State → TheftAttempt → Time → WindowSpec
unfolding addressed_interaction_deadline_policy
theft_response_spec s attempt opened_at = record {
  id = attempt.interaction_id;
  kind = InteractionKind.theft_response;
  parent = turn_parent attempt.parent_phase s;
  initiator = attempt.thief_player_id;
  eligibility = InteractionEligibilityPolicy.opaque_public_set;
  intents = pass_or_respond;
  actors = target_response_actors s attempt.thief_player_id;
  opened_at = opened_at;
  deadline_at = add_seconds opened_at addressed_interaction_deadline_policy.base_seconds;
  policy = addressed_interaction_deadline_policy;
  budget = pos 0;
  response = may_pass;
}

unfoldable pub theft_response_window : State → TheftAttempt → Time → Result InteractionWindow
unfolding theft_response_spec
theft_response_window s attempt opened_at = do
  fail_when
      (attempt.interaction_id == ""
        || (attempt.thief_player_id == "" || (attempt.victim_player_id == "" || is_zero opened_at)))
      illegal_command
  fail_when (is_empty (target_response_actors s attempt.thief_player_id)) illegal_command
  ok (new_window (theft_response_spec s attempt opened_at))

unfoldable pub target_effect_spec : State → String → Time → String → String → WindowSpec
unfolding addressed_interaction_deadline_policy
target_effect_spec s interaction_id opened_at initiator_id source_instance_id = record {
  id = interaction_id;
  kind = InteractionKind.target_response;
  parent = record {
    phase = s.turn.phase;
    subject_kind = InteractionSubjectKind.effect;
    subject_id = source_instance_id;
    parent_interaction_id = "";
  };
  initiator = initiator_id;
  eligibility = InteractionEligibilityPolicy.opaque_public_set;
  intents = pass_or_respond;
  actors = target_response_actors s initiator_id;
  opened_at = opened_at;
  deadline_at = add_seconds opened_at addressed_interaction_deadline_policy.base_seconds;
  policy = addressed_interaction_deadline_policy;
  budget = pos 0;
  response = may_pass;
}

-- `none` is the source's nil.
unfoldable pub target_effect_window :
    State → String → Time → String → String → Option InteractionWindow
unfolding target_effect_spec
target_effect_window s interaction_id opened_at initiator_id source_instance_id =
    if is_empty (target_response_actors s initiator_id)
    then none
    else some
        (new_window (target_effect_spec s interaction_id opened_at initiator_id source_instance_id))

unfoldable pub combat_response_spec : State → Encounter → String → Time → WindowSpec
unfolding collective_interaction_deadline_policy
combat_response_spec s e interaction_id opened_at = record {
  id = interaction_id;
  kind = InteractionKind.combat_response;
  parent = record {
    phase = Phase.combat;
    subject_kind = InteractionSubjectKind.encounter;
    subject_id = e.monster_instance_id;
    parent_interaction_id = "";
  };
  initiator = s.turn.player_id;
  eligibility = InteractionEligibilityPolicy.opaque_public_set;
  intents = pass_or_respond;
  actors = combat_response_actors s;
  opened_at = opened_at;
  deadline_at = add_seconds opened_at collective_interaction_deadline_policy.base_seconds;
  policy = collective_interaction_deadline_policy;
  budget =
      collective_interaction_deadline_policy.max_seconds
      -ℤ collective_interaction_deadline_policy.base_seconds;
  response = may_pass;
}

unfoldable pub combat_response_window : State → String → Time → Option InteractionWindow
unfolding combat_response_spec
combat_response_window s interaction_id opened_at =
    if is_empty (combat_response_actors s) then none else elim s.turn.encounter [
      | none ↦ none
      | some e ↦ some (new_window (combat_response_spec s e interaction_id opened_at))
    ]

-- ===== src/Validation/FlightWindows.antt =====
-- The windows of target effects, of running away and of private choices,
-- backend/game/internal/game/model.go.
use munchkin.Shared.{
  String, String-Eq, Bool, true, false, not, ◌&&◌, ◌||◌, ◌==◌, ◌!=◌, if◌then◌else◌, Option, none,
  some, is_some, is_sole, elem_at, Check, done, fail_when, ◌>>◌, ◌>>=◌,
}
use munchkin.Shared.{illegal_command, incompatible_state}
use munchkin.Model.{
  State, Phase, Phase-Eq, TargetEffectState, RunAwaySequence, PendingDecision, InteractionWindow,
  InteractionKind, InteractionSubjectKind, InteractionSubjectKind-Eq, InteractionEligibilityPolicy,
  InteractionEligibilityPolicy-Eq, InteractionWindowStatus, InteractionWindowStatus-Eq,
  InteractionResponseRequirement, InteractionResponseRequirement-Eq,
}
use munchkin.Profile.{profile}
use munchkin.Validation.Responses.{response_of}
use munchkin.Validation.Flights.{check_target, check_sequence}

differs : Option String → String → Bool
differs none a = true
differs (some b) a = a != b

target_window_fits : Option TargetEffectState → InteractionWindow → Bool
target_window_fits none w = false
target_window_fits (some t) w =
    w.parent.subject_kind == InteractionSubjectKind.effect
    && (w.parent.subject_id == t.source_instance_id
        && (w.initiator_actor_id == t.initiator_player_id
            && w.eligibility_policy == InteractionEligibilityPolicy.opaque_public_set))

flight_window_fits : State → Option RunAwaySequence → InteractionWindow → Bool
unfolding differs
flight_window_fits s none w = false
flight_window_fits s (some q) w =
    not q.completed
    && (s.turn.phase == Phase.run_away
        && (w.parent.subject_kind == InteractionSubjectKind.encounter
            && (not (differs (elem_at q.monster_instance_ids q.monster_index) w.parent.subject_id)
                && (not (
                      differs (elem_at q.participant_player_ids q.participant_index)
                        w.initiator_actor_id)
                    && w.eligibility_policy == InteractionEligibilityPolicy.opaque_public_set))))

choice_window_fits : Option PendingDecision → InteractionWindow → Bool
choice_window_fits none w = false
choice_window_fits (some p) w =
    is_sole w.eligible_actor_ids p.actor_id
    && (w.eligibility_policy == InteractionEligibilityPolicy.actor_private
        && (response_of w p.actor_id).requirement == InteractionResponseRequirement.mandatory)

-- The last `switch` of the source, by the kind of the open window.
window_fits : InteractionKind → State → InteractionWindow → Bool
unfolding target_window_fits flight_window_fits choice_window_fits
window_fits InteractionKind.target_response s w = target_window_fits s.turn.target_effect w
window_fits InteractionKind.run_away_response s w = flight_window_fits s s.turn.run_away w
window_fits InteractionKind.private_choice s w = choice_window_fits s.turn.pending w
window_fits _ s w = true

check_open_window : State → InteractionWindow → Check
unfolding window_fits
check_open_window s w =
    if w.status != InteractionWindowStatus.opened
    then done
    else fail_when (not (window_fits w.kind s w)) illegal_command

-- `State.validateTargetAndRunAway`.
unfoldable pub validate_target_and_run_away : State → Check
unfolding check_open_window
validate_target_and_run_away s = do
  p ← profile s
  fail_when (not p.target_and_run_away && (is_some s.turn.target_effect || is_some s.turn.run_away))
      incompatible_state
  elim s.turn.target_effect [ none ↦ done | some t ↦ check_target s t ]
  elim s.turn.run_away [ none ↦ done | some q ↦ check_sequence s q ]
  elim s.interaction_window [ none ↦ done | some w ↦ check_open_window s w ]

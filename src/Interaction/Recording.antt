-- ===== src/Interaction/Recording.antt =====
-- Opening a window and responding to it, backend/game/internal/game/engine.go.
pub mod Agreement
pub mod Outcomes
use munchkin.Shared.{
  ℕ, ℕ-Eq, String, String-Eq, Bool, true, false, not, ◌&&◌, ◌||◌, ◌==◌, ◌!=◌, if◌then◌else◌, List,
  [], ◌∷◌, Option, none, some, is_none, is_blank, contains, Result, ok, err, Check, fail_when,
  or_fail, ◌>>=◌, ◌>>◌, Time, is_zero, before,
}
use munchkin.Shared.{illegal_command}
use munchkin.Model.{
  State, Status, Status-Eq, Phase, Phase-Eq, InteractionWindow, InteractionResponse,
  InteractionKind, InteractionKind-Eq, InteractionSubjectKind, InteractionSubjectKind-Eq,
  InteractionResponseState, InteractionResponseRequirement, InteractionIntent, InteractionIntent-Eq,
  InteractionWindowStatus, InteractionWindowStatus-Eq, player_index,
}
use munchkin.Profile.{RulesProfile, profile}
use munchkin.Validation.Windows.{is_open}
use munchkin.Interaction.Deadlines.{
  DeadlineOutcome, unchanged, interaction_deadline_after, interaction_response_at,
  interaction_response_state_for_intent,
}
use munchkin.Interaction.Events.{
  ResponseRecorded, apply_window_opened, apply_response_recorded, blocks_opening,
}

-- The fields of `Command` that concern a window.
pub record InteractionCommand : Type 0 where
  pub actor_id : String
  pub interaction_id : String
  pub interaction_intent : InteractionIntent
  pub interaction_at : Time
  pub interaction_revision : ℕ
  pub interaction_window : Option InteractionWindow

-- `requireInteractionWindow`.
unfoldable pub require_interaction_window : State → String → Result InteractionWindow
require_interaction_window s interaction_id = do
  fail_when (is_blank interaction_id) illegal_command
  w ← or_fail s.interaction_window illegal_command
  fail_when (w.id != interaction_id) illegal_command
  fail_when (w.status != InteractionWindowStatus.opened) illegal_command
  ok w

-- `handleOpenInteractionWindow`. The event carries the window.
unfoldable pub handle_open_interaction_window :
    State → InteractionCommand → Result InteractionWindow
handle_open_interaction_window s c = do
  fail_when (s.status != Status.active) illegal_command
  w ← or_fail c.interaction_window illegal_command
  fail_when (blocks_opening s.interaction_window w) illegal_command
  fail_when
      (c.actor_id == ""
        || (c.actor_id != w.initiator_actor_id || is_none (player_index s c.actor_id)))
      illegal_command
  fail_when (w.parent.phase != s.turn.phase) illegal_command
  next ← apply_window_opened s w
  ok w

-- Windows whose responses name the revision that they answer.
unfoldable pub revision_bound : RulesProfile → InteractionWindow → Bool
revision_bound p w =
    (p.combat_responses
      && (w.kind == InteractionKind.combat_response
          && w.parent.subject_kind == InteractionSubjectKind.encounter))
    || (w.kind == InteractionKind.target_response
        || (w.kind == InteractionKind.run_away_response
            || (w.kind == InteractionKind.private_choice
                || w.kind == InteractionKind.theft_response)))

-- The state of a response and its intent.
pub record Answer : Type 0 where
  pub state : InteractionResponseState
  pub intent : InteractionIntent

-- What a timeout records for a response that is still open.
unfoldable pub timeout_answer : InteractionResponseRequirement → InteractionIntent → Result Answer
timeout_answer InteractionResponseRequirement.optional t =
    ok (record { state = InteractionResponseState.timed_out; intent = InteractionIntent.pass })
timeout_answer InteractionResponseRequirement.mandatory t =
    ok (record { state = InteractionResponseState.auto_resolved; intent = t })
timeout_answer (InteractionResponseRequirement.other _) t = err illegal_command

unfoldable pub answer : Bool → InteractionResponse → InteractionIntent → Result Answer
answer true current intent = timeout_answer current.requirement current.timeout_intent
answer false current intent = do
  state ← interaction_response_state_for_intent intent
  ok (record { state = state; intent = intent })

-- The deadline after the answer; a timeout moves nothing, and wants the deadline to have passed.
unfoldable pub answer_deadline :
    Bool → InteractionWindow → Time → InteractionIntent → Result DeadlineOutcome
answer_deadline true w t intent = do
  fail_when (is_zero t || before t w.deadline_at) illegal_command
  ok (unchanged w)
answer_deadline false w t intent = interaction_deadline_after w t intent

-- `recordInteractionResponse`, up to the event that it builds.
unfoldable pub prepare_response :
    State → InteractionCommand → InteractionIntent → Bool → Result ResponseRecorded
prepare_response s c intent timeout = do
  w ← require_interaction_window s c.interaction_id
  p ← profile s
  fail_when (not timeout && (revision_bound p w && c.interaction_revision != w.deadline_revision))
      illegal_command
  current ← interaction_response_at w c.actor_id
  a ← answer timeout current intent
  fail_when (not (contains w.allowed_intents a.intent)) illegal_command
  o ← answer_deadline timeout w c.interaction_at a.intent
  ok (record {
    interaction_id = w.id;
    actor_id = c.actor_id;
    response = record current {
      state = a.state;
      intent = a.intent;
      accepted_at = c.interaction_at;
    };
    deadline_at = o.deadline;
    deadline_revision = o.revision;
    extension_budget_seconds = o.budget;
  })

-- `recordInteractionResponse`: the event is returned only if it applies.
unfoldable pub record_interaction_response :
    State → InteractionCommand → InteractionIntent → Bool → Result ResponseRecorded
record_interaction_response s c intent timeout = do
  event ← prepare_response s c intent timeout
  next ← apply_response_recorded s event
  ok event

unfoldable pub handle_respond_interaction : State → InteractionCommand → Result ResponseRecorded
handle_respond_interaction s c = do
  fail_when
      (c.interaction_intent == InteractionIntent.pass
        || c.interaction_intent == InteractionIntent.auto_resolve)
      illegal_command
  record_interaction_response s c c.interaction_intent false

unfoldable pub handle_pass_interaction : State → InteractionCommand → Result ResponseRecorded
handle_pass_interaction s c = record_interaction_response s c InteractionIntent.pass false

-- ===== src/Interaction/Events.antt =====
-- The events of interaction windows and their application, backend/game/internal/game/event.go.
-- An event carries its payload as a value: the JSON between them is left out.
use munchkin.Shared.{
  ℕ, ℕ-Eq, suc, ◌%◌, ◌^◌, ℤ, ℤ-Eq, String, String-Eq, Bool, false, not, ◌&&◌, ◌||◌, ◌==◌, ◌!=◌,
  Option, none, some, insert, any, Result, ok, Check, fail_when, or_fail, ◌>>=◌, ◌>>◌, Time, before,
  after, add_seconds,
}
use munchkin.Shared.{illegal_command}
use munchkin.Model.{
  State, InteractionWindow, InteractionResponse, InteractionResponseState,
  InteractionResponseState-Eq, InteractionResponseRequirement, InteractionResponseRequirement-Eq,
  InteractionIntent, InteractionIntent-Eq, InteractionWindowStatus, InteractionWindowStatus-Eq,
  InteractionCloseReason,
}
use munchkin.Validation.Responses.{response_of}
use munchkin.Validation.Windows.{is_open}
use munchkin.Validation.Players.{validate}
use munchkin.Interaction.Deadlines.{
  interaction_deadline_after, interaction_response_at, interaction_response_state_for_intent,
}

-- `interactionResponseRecordedPayload`.
pub record ResponseRecorded : Type 0 where
  pub interaction_id : String
  pub actor_id : String
  pub response : InteractionResponse
  pub deadline_at : Time
  pub deadline_revision : ℕ
  pub extension_budget_seconds : ℤ

-- `interactionWindowClosedPayload`.
pub record WindowClosed : Type 0 where
  pub interaction_id : String
  pub reason : InteractionCloseReason
  pub closed_at : Time

-- `next.Version++` of a uint64, and `next.Validate()`.
unfoldable pub commit : State → Result State
commit s =
    let next : State = record s { version = suc s.version % 2 ^ 64 } in do validate next; ok next

-- The open window with that name.
unfoldable pub open_window : State → String → Result InteractionWindow
open_window s interaction_id = do
  w ← or_fail s.interaction_window illegal_command
  fail_when (w.id != interaction_id || w.status != InteractionWindowStatus.opened) illegal_command
  ok w

-- Whether an earlier window of the state is open, or bears the name of the new one.
unfoldable pub blocks_opening : Option InteractionWindow → InteractionWindow → Bool
blocks_opening none w = false
blocks_opening (some old) w = is_open old || old.id == w.id

unfoldable pub malformed_opening : InteractionWindow → Bool
malformed_opening w =
    w.status != InteractionWindowStatus.opened
    || (w.deadline_revision != 1
        || after w.deadline_at (add_seconds w.opened_at w.deadline_policy.base_seconds))

-- `Apply` at `EventInteractionWindowOpened`.
unfoldable pub apply_window_opened : State → InteractionWindow → Result State
unfolding malformed_opening
apply_window_opened s w = do
  fail_when (blocks_opening s.interaction_window w) illegal_command
  fail_when (malformed_opening w) illegal_command
  fail_when
      (any (λ a. (response_of w a).state != InteractionResponseState.pending) w.eligible_actor_ids)
      illegal_command
  commit (record s { interaction_window = some w })

-- `sameInteractionDeadline`. Times are compared as instants.
unfoldable pub same_interaction_deadline : InteractionWindow → ResponseRecorded → Bool
same_interaction_deadline w p =
    p.deadline_at == w.deadline_at
    && (p.deadline_revision == w.deadline_revision
        && p.extension_budget_seconds == w.extension_budget_seconds)

unfoldable pub check_player_response : InteractionWindow → ResponseRecorded → Check
check_player_response w p = do
  expected ← interaction_response_state_for_intent p.response.intent
  fail_when (expected != p.response.state) illegal_command
  o ← interaction_deadline_after w p.response.accepted_at p.response.intent
  fail_when
      (p.deadline_at != o.deadline
        || (p.deadline_revision != o.revision || p.extension_budget_seconds != o.budget))
      illegal_command

-- The `switch` over the recorded response, for the response that stood before.
unfoldable pub check_recorded :
    InteractionResponseState → InteractionWindow → InteractionResponse → ResponseRecorded → Check
unfolding check_player_response
check_recorded InteractionResponseState.timed_out w current p = do
  fail_when
      (current.requirement != InteractionResponseRequirement.optional
        || (p.response.intent != InteractionIntent.pass
            || before p.response.accepted_at w.deadline_at))
      illegal_command
  fail_when (not (same_interaction_deadline w p)) illegal_command
check_recorded InteractionResponseState.auto_resolved w current p = do
  fail_when
      (current.requirement != InteractionResponseRequirement.mandatory
        || (p.response.intent != current.timeout_intent
            || before p.response.accepted_at w.deadline_at))
      illegal_command
  fail_when (not (same_interaction_deadline w p)) illegal_command
check_recorded _ w current p = check_player_response w p

-- The window with the response written into it.
abbrev pub with_response : InteractionWindow → ResponseRecorded → InteractionWindow
with_response w p = record w {
  responses = insert p.actor_id p.response w.responses;
  deadline_at = p.deadline_at;
  deadline_revision = p.deadline_revision;
  extension_budget_seconds = p.extension_budget_seconds;
}

-- `applyInteractionResponse`.
unfoldable pub apply_interaction_response : State → ResponseRecorded → Result State
unfolding check_recorded
apply_interaction_response s p = do
  w ← open_window s p.interaction_id
  current ← interaction_response_at w p.actor_id
  fail_when
      (p.response.requirement != current.requirement
        || p.response.timeout_intent != current.timeout_intent)
      illegal_command
  check_recorded p.response.state w current p
  ok (record s { interaction_window = some (with_response w p) })

-- `Apply` at `EventInteractionResponseRecorded`.
unfoldable pub apply_response_recorded : State → ResponseRecorded → Result State
apply_response_recorded s p = do next ← apply_interaction_response s p; commit next

-- `Apply` at `EventInteractionWindowClosed`.
unfoldable pub apply_window_closed : State → WindowClosed → Result State
apply_window_closed s p = do
  w ← open_window s p.interaction_id
  commit (record s {
    interaction_window = some (record w {
      status = InteractionWindowStatus.closed;
      close_reason = p.reason;
      closed_at = p.closed_at;
    });
  })

-- ===== src/Interaction/Deadlines.antt =====
-- Deadlines and responses of a window, backend/game/internal/game/rules.go.
pub mod Steps
pub mod Budget
use munchkin.Shared.{
  ℕ, ℕ-Eq, suc, ◌+◌, ◌*◌, ◌/◌, ◌%◌, ◌^◌, ℤ, ℤ-Eq, pos, negsuc, sub_ℕ, ◌+ℤ◌, ◌-ℤ◌, ltb_ℤ, leb_ℤ,
  String, String-Eq, Bool, true, false, not, ◌&&◌, ◌||◌, ◌==◌, ◌!=◌, if◌then◌else◌, List, [], ◌∷◌,
  Option, none, some, lookup, insert, contains, Map, Result, ok, err, Check, fail_when, or_fail,
  ◌>>=◌, ◌>>◌, Time, is_zero, zero_time, before, after, add_seconds, nanos,
}
use munchkin.Shared.{illegal_command}
use munchkin.Model.{
  InteractionWindow, InteractionDeadlinePolicy, InteractionIntent, InteractionIntent-Eq,
  InteractionResponse, InteractionResponseState, InteractionResponseState-Eq,
  InteractionWindowStatus, InteractionWindowStatus-Eq,
}
use munchkin.Validation.Responses.{response_of}

unfoldable pub collective_interaction_deadline_policy : InteractionDeadlinePolicy
collective_interaction_deadline_policy = record {
  base_seconds = pos 60;
  late_threshold_seconds = pos 30;
  extension_step_seconds = pos 10;
  max_seconds = pos 90;
}

unfoldable pub addressed_interaction_deadline_policy : InteractionDeadlinePolicy
addressed_interaction_deadline_policy = record {
  base_seconds = pos 30;
  late_threshold_seconds = pos 0;
  extension_step_seconds = pos 0;
  max_seconds = pos 30;
}

-- `int(d / time.Second)`: Go's division rounds towards zero.
unfoldable pub whole_seconds : ℤ → ℤ
whole_seconds (pos n) = pos (n / nanos)
whole_seconds (negsuc n) = sub_ℕ 0 (suc n / nanos)

-- `^uint32(0)`.
abbrev pub max_revision : ℕ
max_revision = 4294967295

-- The deadline, the revision and the budget that a response leaves.
pub record DeadlineOutcome : Type 0 where
  pub deadline : Time
  pub revision : ℕ
  pub budget : ℤ

abbrev pub unchanged : InteractionWindow → DeadlineOutcome
unchanged w = record {
  deadline = w.deadline_at;
  revision = w.deadline_revision;
  budget = w.extension_budget_seconds;
}

-- The deadline one step later, but not past the hard one.
pub extended_deadline : InteractionWindow → Time
extended_deadline w =
    let hard_deadline = add_seconds w.opened_at w.deadline_policy.max_seconds in
    let extended = add_seconds w.deadline_at w.deadline_policy.extension_step_seconds in
    if after extended hard_deadline then hard_deadline else extended

pub extend : InteractionWindow → Time → ℤ → Result DeadlineOutcome
extend w extended added =
    if leb_ℤ added (pos 0)
    then ok (unchanged w)
    else if w.deadline_revision == max_revision
    then err illegal_command
    else ok (record {
      deadline = extended;
      revision = suc w.deadline_revision;
      budget = w.extension_budget_seconds -ℤ added;
    })

-- Whether a response extends the deadline at all.
unfoldable pub extends : InteractionWindow → Time → InteractionIntent → Bool
extends w accepted_at intent =
    let p = w.deadline_policy in
    not (
      intent != InteractionIntent.respond
      || (p.extension_step_seconds == pos 0
          || (before accepted_at (add_seconds w.opened_at p.late_threshold_seconds)
              || ltb_ℤ w.extension_budget_seconds p.extension_step_seconds)))

unfoldable pub interaction_deadline_after :
    InteractionWindow → Time → InteractionIntent → Result DeadlineOutcome
unfolding extends extended_deadline extend
interaction_deadline_after w accepted_at intent = do
  fail_when
      (is_zero accepted_at
        || (before accepted_at w.opened_at || not (before accepted_at w.deadline_at)))
      illegal_command
  if not (extends w accepted_at intent)
      then ok (unchanged w)
      else extend w (extended_deadline w) (whole_seconds (extended_deadline w -ℤ w.deadline_at))

-- An intervention always takes a new revision.
fresh_revision : InteractionWindow → DeadlineOutcome → Result DeadlineOutcome
fresh_revision w o =
    if o.revision != w.deadline_revision
    then ok o
    else if o.revision == max_revision
    then err illegal_command
    else ok (record o { revision = suc o.revision })

unfoldable pub combat_intervention_deadline_after :
    InteractionWindow → Time → Result DeadlineOutcome
unfolding fresh_revision
combat_intervention_deadline_after w accepted_at = do
  o ← interaction_deadline_after w accepted_at InteractionIntent.respond
  fresh_revision w o

unfoldable pub interaction_response_state_for_intent :
    InteractionIntent → Result InteractionResponseState
interaction_response_state_for_intent InteractionIntent.pass = ok InteractionResponseState.passed
interaction_response_state_for_intent InteractionIntent.respond = ok InteractionResponseState.acted
interaction_response_state_for_intent InteractionIntent.accept =
    ok InteractionResponseState.accepted
interaction_response_state_for_intent InteractionIntent.decline =
    ok InteractionResponseState.declined
interaction_response_state_for_intent _ = err illegal_command

unfoldable pub interaction_response_at : InteractionWindow → String → Result InteractionResponse
interaction_response_at w actor_id = do
  fail_when (w.status != InteractionWindowStatus.opened) illegal_command
  r ← or_fail (lookup actor_id w.responses) illegal_command
  fail_when (not (contains w.eligible_actor_ids actor_id)) illegal_command
  fail_when (r.state != InteractionResponseState.pending) illegal_command
  ok r

-- The response of every eligible actor is open again.
unfoldable pub reopen_responses :
    InteractionWindow → List String → Map InteractionResponse → Map InteractionResponse
reopen_responses w [] m = m
reopen_responses w (a ∷ as_) m =
    let blank : InteractionResponse = record (response_of w a) {
      state = InteractionResponseState.pending;
      intent = InteractionIntent.other "";
      accepted_at = zero_time;
    } in
    reopen_responses w as_ (insert a blank m)

-- `resetInteractionResponses`. The revision is a uint32, and wraps.
unfoldable pub reset_interaction_responses : InteractionWindow → Time → Result InteractionWindow
reset_interaction_responses w accepted_at = do
  fail_when
      (w.status != InteractionWindowStatus.opened
        || (is_zero accepted_at || not (before accepted_at w.deadline_at)))
      illegal_command
  ok (record w {
    responses = reopen_responses w w.eligible_actor_ids w.responses;
    deadline_revision = suc w.deadline_revision % 2 ^ 32;
  })

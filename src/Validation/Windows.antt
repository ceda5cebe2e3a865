-- ===== src/Validation/Windows.antt =====
-- The interaction window of a state, backend/game/internal/game/model.go.
use Prim.Native.String.{len as byte_len}
use munchkin.Shared.{
  ℕ-Eq, ltb, String, String-Eq, Bool, true, false, not, ◌&&◌, ◌||◌, ◌==◌, ◌!=◌, if◌then◌else◌, List,
  [], ◌∷◌, none, some, lookup, contains, is_empty, length, Check, done, fail_when, or_fail, ◌>>◌,
  ◌>>=◌, is_zero, is_blank, is_none, before, ℤ-Eq,
}
use munchkin.Shared.{illegal_command}
use munchkin.Model.{
  State, Status, Status-Eq, Phase-Eq, InteractionWindow, InteractionParent, InteractionResponse,
  InteractionIntent, InteractionIntent-Eq, InteractionResponseState, InteractionResponseState-Eq,
  InteractionWindowStatus, InteractionWindowStatus-Eq, InteractionCloseReason,
  InteractionCloseReason-Eq, InteractionSubjectKind, player_index, encounter_monster_instance_ids,
}
use munchkin.Validation.Responses.{
  valid_phase, valid_interaction_kind, valid_interaction_subject_kind,
  valid_interaction_eligibility_policy, valid_interaction_intent, valid_interaction_close_reason,
  interaction_all_responded, interaction_has_response_state, validate_interaction_response,
}
use munchkin.Validation.Deadlines.{validate_interaction_deadline}

-- The subject of a parent, by its kind.
subject_matches : InteractionSubjectKind → State → InteractionParent → Bool
subject_matches InteractionSubjectKind.turn s p = p.subject_id == s.turn.player_id
subject_matches InteractionSubjectKind.encounter s p = elim s.turn.encounter [
  | none ↦ false
  | some e ↦ contains (encounter_monster_instance_ids e) p.subject_id
]
subject_matches InteractionSubjectKind.effect s p = contains s.turn.resolving p.subject_id
subject_matches InteractionSubjectKind.interaction s p =
    p.parent_interaction_id != "" && p.subject_id == p.parent_interaction_id
subject_matches (InteractionSubjectKind.other _) s p = false

unfoldable pub interaction_parent_matches : State → InteractionParent → Bool
unfolding subject_matches
interaction_parent_matches s p = subject_matches p.subject_kind s p

-- The loop over the allowed intents, with those seen.
unfoldable pub check_intents : List InteractionIntent → List InteractionIntent → Check
check_intents seen [] = done
check_intents seen (i ∷ is) =
    let rest = check_intents (i ∷ seen) is in
    do
      fail_when (not (valid_interaction_intent i)) illegal_command
      fail_when (contains seen i) illegal_command
      rest

-- The instant of a recorded response lies before the deadline, that of a timeout at it or later.
missed_deadline : InteractionResponseState → InteractionResponse → InteractionWindow → Bool
missed_deadline InteractionResponseState.timed_out r w = before r.accepted_at w.deadline_at
missed_deadline InteractionResponseState.auto_resolved r w = before r.accepted_at w.deadline_at
missed_deadline _ r w = not (before r.accepted_at w.deadline_at)

-- One eligible actor: known, not seen before, with a well-formed response.
unfoldable pub check_actor : State → InteractionWindow → List String → String → Check
unfolding missed_deadline
check_actor s w seen actor_id = do
  fail_when (is_none (player_index s actor_id)) illegal_command
  fail_when (contains seen actor_id) illegal_command
  r ← or_fail (lookup actor_id w.responses) illegal_command
  validate_interaction_response r w.allowed_intents
  if r.state == InteractionResponseState.pending then done else (do
    fail_when (before r.accepted_at w.opened_at) illegal_command
    fail_when (missed_deadline r.state r w) illegal_command)

unfoldable pub check_actors : State → InteractionWindow → List String → List String → Check
check_actors s w seen [] = done
check_actors s w seen (a ∷ as_) =
    let rest = check_actors s w (a ∷ seen) as_ in do check_actor s w seen a; rest

malformed_close : InteractionCloseReason → InteractionWindow → Bool
malformed_close InteractionCloseReason.all_responded w = not (interaction_all_responded w)
malformed_close InteractionCloseReason.accepted w =
    not (interaction_has_response_state w InteractionResponseState.accepted)
malformed_close InteractionCloseReason.declined w =
    not (interaction_has_response_state w InteractionResponseState.declined)
malformed_close InteractionCloseReason.deadline_expired w =
    before w.closed_at w.deadline_at || not (interaction_all_responded w)
malformed_close _ w = false

malformed_status : InteractionWindowStatus → InteractionWindow → Bool
malformed_status InteractionWindowStatus.opened w =
    w.close_reason != InteractionCloseReason.other "" || not (is_zero w.closed_at)
malformed_status InteractionWindowStatus.closed w =
    not (valid_interaction_close_reason w.close_reason)
    || (is_zero w.closed_at || (before w.closed_at w.opened_at || malformed_close w.close_reason w))
malformed_status (InteractionWindowStatus.other _) w = true

abbrev pub is_open : InteractionWindow → Bool
is_open w = w.status == InteractionWindowStatus.opened

-- The part of the check that reads the state around the window.
unfoldable pub check_window_context : State → InteractionWindow → Check
check_window_context s w = do
  fail_when (s.status != Status.active && is_open w) illegal_command
  fail_when (is_open w && w.parent.phase != s.turn.phase) illegal_command
  fail_when (is_open w && not (interaction_parent_matches s w.parent)) illegal_command

unfoldable pub check_window : State → InteractionWindow → Check
unfolding check_window_context check_intents check_actors malformed_status malformed_close
check_window s w = do
  check_window_context s w
  fail_when (is_blank w.id || ltb 128 (byte_len w.id)) illegal_command
  fail_when (not (valid_interaction_kind w.kind)) illegal_command
  fail_when
      (not (valid_phase w.parent.phase)
        || (not (valid_interaction_subject_kind w.parent.subject_kind)
            || (is_blank w.parent.subject_id || w.parent.parent_interaction_id == w.id)))
      illegal_command
  fail_when (is_none (player_index s w.initiator_actor_id)) illegal_command
  fail_when (not (valid_interaction_eligibility_policy w.eligibility_policy)) illegal_command
  fail_when (is_empty w.allowed_intents || is_empty w.eligible_actor_ids) illegal_command
  check_intents [] w.allowed_intents
  check_actors s w [] w.eligible_actor_ids
  fail_when (length w.responses != length w.eligible_actor_ids) illegal_command
  validate_interaction_deadline w
  fail_when (malformed_status w.status w) illegal_command

-- `State.validateInteractionWindow`.
unfoldable pub validate_interaction_window : State → Check
validate_interaction_window s = elim s.interaction_window [
  | none ↦ done
  | some w ↦ check_window s w
]

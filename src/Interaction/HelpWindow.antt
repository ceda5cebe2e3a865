-- ===== src/Interaction/HelpWindow.antt =====
-- The window of a combat-help offer inside a combat window, backend/game/internal/game/rules.go.
pub mod Nesting
use munchkin.Shared.{
  ℤ, ℤ-Eq, pos, ◌+ℤ◌, ◌-ℤ◌, ltb_ℤ, String, String-Eq, Bool, true, false, ◌||◌, ◌==◌, ◌!=◌,
  if◌then◌else◌, [], ◌∷◌, Result, ok, err, fail_when, ◌>>=◌, ◌>>◌, Time, is_zero, before,
  add_seconds, nanos,
}
use munchkin.Shared.{illegal_command}
use munchkin.Model.{
  Phase, InteractionWindow, InteractionKind, InteractionKind-Eq, InteractionSubjectKind,
  InteractionSubjectKind-Eq, InteractionEligibilityPolicy, InteractionWindowStatus,
  InteractionWindowStatus-Eq, CombatHelpOffer,
}
use munchkin.Interaction.Deadlines.{whole_seconds}
use munchkin.Interaction.Windows.{WindowSpec, new_window, accept_or_decline, must_decline}

malformed_help : InteractionWindow → CombatHelpOffer → Time → Bool
malformed_help parent offer opened_at =
    parent.status != InteractionWindowStatus.opened
    || (parent.kind != InteractionKind.combat_response
        || (parent.parent.subject_kind != InteractionSubjectKind.encounter
            || (offer.id == ""
                || (offer.parent_interaction_id != parent.id
                    || (offer.combatant_player_id != parent.initiator_actor_id
                        || (offer.helper_player_id == ""
                            || (ltb_ℤ offer.reward_treasures (pos 1)
                                || (is_zero opened_at || before opened_at parent.opened_at))))))))

-- Thirty seconds, or what is left of the parent.
unfoldable pub help_deadline : Time → Time → Time
help_deadline opened_at parent_deadline =
    let deadline = add_seconds opened_at (pos 30) in
    if before parent_deadline deadline then parent_deadline else deadline

-- The seconds up to the deadline, rounded up.
unfoldable pub help_base_seconds : Time → Time → ℤ
help_base_seconds opened_at deadline = whole_seconds (deadline -ℤ opened_at +ℤ pos nanos -ℤ pos 1)

unfoldable pub combat_help_window :
    InteractionWindow → CombatHelpOffer → Time → Result InteractionWindow
unfolding malformed_help
combat_help_window parent offer opened_at =
    let deadline = help_deadline opened_at parent.deadline_at in
    let base = help_base_seconds opened_at deadline in
    do
      fail_when (malformed_help parent offer opened_at) illegal_command
      fail_when (ltb_ℤ (parent.deadline_at -ℤ opened_at) (pos 10000000000)) illegal_command
      ok (
          new_window (record {
            id = offer.id;
            kind = InteractionKind.addressed_response;
            parent = record {
              phase = Phase.combat;
              subject_kind = InteractionSubjectKind.interaction;
              subject_id = parent.id;
              parent_interaction_id = parent.id;
            };
            initiator = offer.combatant_player_id;
            eligibility = InteractionEligibilityPolicy.actor_private;
            intents = accept_or_decline;
            actors = offer.helper_player_id ∷ [];
            opened_at = opened_at;
            deadline_at = deadline;
            policy = record {
              base_seconds = base;
              late_threshold_seconds = pos 0;
              extension_step_seconds = pos 0;
              max_seconds = base;
            };
            budget = pos 0;
            response = must_decline;
          }))

-- ===== src/Examples/Responding.antt =====
-- Responses to an open window at a concrete table.
use munchkin.Shared.{
  String-discrete, ℕ_discrete, ℤ-discrete, false, pos, [], ◌∷◌, none, some, ok, done, any, all,
  each, contains, find_index, lookup, insert, ◌-ℤ◌, ◌+ℤ◌, seconds, ◌≡◌, refl, is_blank,
}
use munchkin.Cards.{unique_strings}
use munchkin.Model.{
  State, InteractionWindow, InteractionResponseRequirement, InteractionResponseState,
  InteractionIntent, Phase-discrete, Status-discrete, InteractionIntent-discrete,
  InteractionResponseState-discrete, InteractionResponseRequirement-discrete,
  InteractionWindowStatus-discrete, InteractionCloseReason-discrete, InteractionKind-discrete,
  InteractionSubjectKind-discrete, InteractionEligibilityPolicy-discrete, player_index,
  player_by_id, encounter_monster_instance_ids, all_owned_zones,
}
use munchkin.Profile.{rules_profile, profile, lobby_multiplayer_profile}
use munchkin.Validation.Responses.{
  valid_phase, valid_interaction_kind, valid_interaction_subject_kind,
  valid_interaction_eligibility_policy, valid_interaction_intent, valid_interaction_close_reason,
  response_of, interaction_all_responded, interaction_has_response_state,
  validate_interaction_response,
}
use munchkin.Validation.Deadlines.{
  malformed_deadline, malformed_extension, beyond_cap, validate_interaction_deadline,
}
use munchkin.Validation.Windows.{
  interaction_parent_matches, check_intents, check_actor, check_actors, check_window_context,
  check_window, validate_interaction_window,
}
use munchkin.Validation.Help.{validate_combat_help, validate_combat_help_agreement}
use munchkin.Validation.Encounters.{
  check_monsters, check_effects, check_encounter, validate_advanced_encounter,
}
use munchkin.Validation.FlightWindows.{validate_target_and_run_away}
use munchkin.Validation.Trades.{validate_player_economy, orphan_window}
use munchkin.Validation.Loot.{validate_theft, validate_death_loot}
use munchkin.Validation.Zones.{add_zone, add_zones, player_zones, zones, validate_instance_zones}
use munchkin.Validation.Players.{
  check_players, check_active_turn, check_status, check_table, validate,
}
use munchkin.Interaction.Deadlines.{
  interaction_deadline_after, interaction_response_at, interaction_response_state_for_intent,
  whole_seconds,
}
use munchkin.Interaction.Events.{
  ResponseRecorded, apply_response_recorded, apply_interaction_response, commit, open_window,
  check_recorded, with_response,
}
use munchkin.Interaction.Recording.{
  InteractionCommand, record_interaction_response, prepare_response, require_interaction_window,
  revision_bound, answer, answer_deadline,
}
use munchkin.Interaction.Recording.Agreement.{prepare_response-apply}
use munchkin.Interaction.Recording.Outcomes.{Answered, record_interaction_response-Answered}
use munchkin.Examples.Table.{table, late, waiting, combat_window}

abbrev bob_answers : InteractionCommand
bob_answers = record {
  actor_id = "bob";
  interaction_id = "w1";
  interaction_intent = InteractionIntent.respond;
  interaction_at = late;
  interaction_revision = 1;
  interaction_window = none;
}

abbrev bob_again : InteractionCommand
bob_again = record bob_answers { interaction_revision = 2; interaction_at = pos 1041000000000 }

-- Bob answers in the last half minute, so the deadline moves by ten seconds.
abbrev bob_answered : ResponseRecorded
bob_answered = record {
  interaction_id = "w1";
  actor_id = "bob";
  response = record {
    requirement = InteractionResponseRequirement.optional;
    timeout_intent = InteractionIntent.pass;
    state = InteractionResponseState.acted;
    intent = InteractionIntent.respond;
    accepted_at = late;
  };
  deadline_at = pos 1070000000000;
  deadline_revision = 2;
  extension_budget_seconds = pos 20;
}

abbrev bob_window : InteractionWindow
bob_window = record combat_window {
  responses = ("cid", waiting) ∷ ("bob", bob_answered.response) ∷ [];
  deadline_at = pos 1070000000000;
  deadline_revision = 2;
  extension_budget_seconds = pos 20;
}

abbrev bob_table : State
bob_table = record table { version = 8; interaction_window = some bob_window }

-- The table is valid, and Bob's answer is accepted and applied.
bob_runs :
    (validate table ≡ done)
    × (prepare_response table bob_answers InteractionIntent.respond false ≡ ok bob_answered)
    × (record_interaction_response table bob_answers InteractionIntent.respond false
        ≡ ok bob_answered)
    × (apply_response_recorded table bob_answered ≡ ok bob_table)
unfolding validate check_table check_players check_status check_active_turn
    validate_interaction_window check_window check_window_context check_intents check_actors
    check_actor interaction_parent_matches validate_interaction_response valid_phase
    valid_interaction_kind valid_interaction_subject_kind valid_interaction_eligibility_policy
    valid_interaction_intent valid_interaction_close_reason response_of interaction_all_responded
    interaction_has_response_state validate_interaction_deadline malformed_deadline
    malformed_extension beyond_cap validate_combat_help validate_combat_help_agreement
    validate_advanced_encounter check_encounter check_monsters check_effects
    validate_target_and_run_away validate_player_economy orphan_window validate_theft
    validate_death_loot validate_instance_zones zones player_zones add_zones add_zone
    all_owned_zones player_index player_by_id encounter_monster_instance_ids profile rules_profile
    lobby_multiplayer_profile unique_strings any all each contains find_index lookup insert is_blank
    String-discrete ℕ_discrete ℤ-discrete Phase-discrete Status-discrete InteractionIntent-discrete
    InteractionResponseState-discrete InteractionResponseRequirement-discrete
    InteractionWindowStatus-discrete InteractionCloseReason-discrete InteractionKind-discrete
    InteractionSubjectKind-discrete InteractionEligibilityPolicy-discrete ◌-ℤ◌ ◌+ℤ◌ seconds
    record_interaction_response prepare_response require_interaction_window revision_bound answer
    answer_deadline apply_response_recorded apply_interaction_response commit open_window
    interaction_deadline_after interaction_response_at interaction_response_state_for_intent
    check_recorded whole_seconds
bob_runs = (refl, refl, refl, refl)

prepare_response-apply_example :
    (w : InteractionWindow) × (table.interaction_window ≡ some w)
    × (apply_interaction_response table bob_answered
        ≡ ok (record table { interaction_window = some (with_response w bob_answered) }))
prepare_response-apply_example =
    prepare_response-apply table bob_answers InteractionIntent.respond false bob_runs.1

record_interaction_response-Answered_example :
    (s : State) × (apply_response_recorded table bob_answered ≡ ok s)
    × Answered table bob_answers bob_answered s
record_interaction_response-Answered_example =
    record_interaction_response-Answered table bob_answers InteractionIntent.respond false
      bob_runs.2

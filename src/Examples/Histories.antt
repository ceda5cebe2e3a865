-- ===== src/Examples/Histories.antt =====
-- Deals and histories at concrete inputs.
use munchkin.Shared.{
  String, String-Eq, String-discrete, [], all, any, arith, contains, distinct_from, each, false,
  find_index, insert, is_blank, lookup, ok, pos, refl, suc, zero, ℕ, ℕ-Eq, ℕ_discrete, ℤ-Eq,
  ℤ-discrete, ◌%◌, ◌+ℤ◌, ◌+◌, ◌-ℤ◌, ◌>>=◌, ◌^◌, ◌∷◌, ◌≡◌,
}
use munchkin.Cards.{remove_string, unique_strings}
use munchkin.Commands.Dealing.{
  Deal, combat_intervention_effect, deal_cards, deal_copies, deal_copy, materialize,
  materialize_selected_profile, put_in_deck, selected_by, starting_deal,
}
use munchkin.Commands.Dealing.Exactness.{Exact, starting_deal-Exact}
use munchkin.Commands.Events.{
  lobby_created, EventEnvelope, LobbyCreated, apply, apply_lobby_created, empty_state,
  malformed_envelope, replay_from, replay_loop, replay_one,
}
use munchkin.Commands.Events.Replaying.{replay_from-append, replay_from-version}
use munchkin.Content.{InteractionScope-discrete, card_by_id}
use munchkin.Examples.Packs.{door_pack}
use munchkin.Examples.Table.{noon, player}
use munchkin.Interaction.Events.{commit}
use munchkin.Model.{
  Phase-Eq, Phase-discrete, State, Status, Status-Eq, Status-discrete, all_owned_zones,
  definition_for_instance, encounter_monster_instance_ids, player_by_id, player_index,
}
use munchkin.Profile.{lobby_multiplayer_profile, profile, rules_profile}
use munchkin.Validation.Deadlines.{
  beyond_cap, malformed_deadline, malformed_extension, validate_interaction_deadline,
}
use munchkin.Validation.Encounters.{
  check_effects, check_encounter, check_monsters, validate_advanced_encounter,
}
use munchkin.Validation.FlightWindows.{validate_target_and_run_away}
use munchkin.Validation.Help.{validate_combat_help, validate_combat_help_agreement}
use munchkin.Validation.Loot.{check_death_loot, validate_death_loot, validate_theft}
use munchkin.Validation.Players.{
  check_active_turn, check_players, check_status, check_table, validate,
}
use munchkin.Validation.Responses.{
  interaction_all_responded, interaction_has_response_state, response_of,
  valid_interaction_close_reason, valid_interaction_eligibility_policy, valid_interaction_intent,
  valid_interaction_kind, valid_interaction_subject_kind, valid_phase,
  validate_interaction_response,
}
use munchkin.Validation.Trades.{
  check_charity, check_economy, orphan_window, validate_player_economy,
}
use munchkin.Validation.Windows.{
  check_actor, check_actors, check_intents, check_window, check_window_context,
  interaction_parent_matches, validate_interaction_window,
}
use munchkin.Validation.Zones.{add_zone, add_zones, player_zones, validate_instance_zones, zones}

-- The texts of the copy numbers below 2.
abbrev digit : ℕ → String
digit zero = "0"
digit (suc _) = "1"

abbrev one_door : Deal
one_door = record {
  instances = ("card-1", record { id = "card-1"; definition_id = "card" }) ∷ [];
  doors = "card-1" ∷ [];
  treasures = [];
}

deal_run : starting_deal digit door_pack lobby_multiplayer_profile ≡ ok one_door
unfolding insert lobby_multiplayer_profile lookup materialize materialize_selected_profile
    combat_intervention_effect deal_cards deal_copies deal_copy put_in_deck selected_by
    InteractionScope-discrete starting_deal
deal_run = refl

starting_deal-Exact_example : Exact one_door
starting_deal-Exact_example =
    starting_deal-Exact digit door_pack lobby_multiplayer_profile one_door deal_run

abbrev created : LobbyCreated
created = record {
  game_id = "g1";
  owner = record (player "ann" []) { setup_done = false };
  seed = 42;
  content_set_id = "base";
  content_version = pos 1;
  content_digest = "";
  rules_profile_id = "lobby-multiplayer-v1";
  rules_profile_version = pos 1;
}

abbrev pub first_event : EventEnvelope
first_event = record {
  game_id = "g1";
  sequence = 1;
  event_id = "e1";
  command_id = "c1";
  event = lobby_created created;
  schema = 1;
  occurred_at = noon;
}

abbrev pub lobby : State
lobby = record empty_state {
  game_id = "g1";
  version = 1;
  status = Status.lobby;
  owner_player_id = "ann";
  players = created.owner ∷ [];
  rng_state = 42;
  content_set_id = "base";
  content_version = pos 1;
  rules_profile_id = "lobby-multiplayer-v1";
  rules_profile_version = pos 1;
}

pub lobby_run : replay_from empty_state (first_event ∷ []) ≡ ok lobby
unfolding Phase-discrete Status-discrete String-discrete add_zone add_zones all all_owned_zones any
    apply apply_lobby_created beyond_cap card_by_id check_active_turn check_actor check_actors
    check_charity check_death_loot check_economy check_effects check_encounter check_intents
    check_monsters check_players check_status check_table check_window check_window_context commit
    contains definition_for_instance distinct_from each encounter_monster_instance_ids find_index
    insert interaction_all_responded interaction_has_response_state interaction_parent_matches
    is_blank lobby_multiplayer_profile lookup malformed_deadline malformed_envelope
    malformed_extension orphan_window player_by_id player_index player_zones profile remove_string
    replay_from replay_loop replay_one response_of rules_profile unique_strings
    valid_interaction_close_reason valid_interaction_eligibility_policy valid_interaction_intent
    valid_interaction_kind valid_interaction_subject_kind valid_phase validate
    validate_advanced_encounter validate_combat_help validate_combat_help_agreement
    validate_death_loot validate_instance_zones validate_interaction_deadline
    validate_interaction_response validate_interaction_window validate_player_economy
    validate_target_and_run_away validate_theft zones ℕ_discrete ℤ-discrete ◌+ℤ◌ ◌-ℤ◌
lobby_run = refl

replay_from-version_example : lobby.version ≡ (0 + 1) % 2 ^ 64
replay_from-version_example =
    replay_from-version empty_state (first_event ∷ []) lobby (omega arith) lobby_run

replay_from-append_example :
    replay_from empty_state (first_event ∷ first_event ∷ [])
    ≡ (replay_from empty_state (first_event ∷ []) >>= λ m. replay_from m (first_event ∷ []))
replay_from-append_example =
    replay_from-append empty_state (first_event ∷ []) (first_event ∷ []) (omega arith)

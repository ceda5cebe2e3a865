-- ===== src/Examples/Looting.antt =====
-- The last seat picks from the cards of a dead player, at a concrete table.
use munchkin.Shared.{
  String-discrete, ℕ_discrete, ℤ-discrete, false, pos, [], ◌∷◌, none, some, ok, done, any, all,
  each, contains, find_index, lookup, insert, ◌-ℤ◌, ◌+ℤ◌, seconds, ◌≡◌, ◌≢◌, refl, is_blank,
}
use munchkin.Cards.{unique_strings}
use munchkin.Model.{
  State, InteractionWindow, InteractionResponseState, InteractionIntent, Phase-discrete,
  Status-discrete, InteractionIntent-discrete, InteractionResponseState-discrete,
  InteractionResponseRequirement-discrete, InteractionWindowStatus-discrete,
  InteractionCloseReason-discrete, InteractionKind-discrete, InteractionSubjectKind-discrete,
  InteractionEligibilityPolicy-discrete, player_index, player_by_id, encounter_monster_instance_ids,
  all_owned_zones,
}
use munchkin.Profile.{rules_profile, profile}
use munchkin.Validation.Responses.{
  valid_phase, valid_interaction_kind, valid_interaction_subject_kind,
  valid_interaction_eligibility_policy, valid_interaction_intent, valid_interaction_close_reason,
  response_of, interaction_all_responded, interaction_has_response_state,
  validate_interaction_response,
}
use munchkin.Validation.Deadlines.{
  malformed_deadline, malformed_extension, beyond_cap, validate_interaction_deadline,
}
use munchkin.Validation.Windows.{
  interaction_parent_matches, check_intents, check_actor, check_actors, check_window_context,
  check_window, validate_interaction_window,
}
use munchkin.Validation.Help.{validate_combat_help, validate_combat_help_agreement}
use munchkin.Validation.Encounters.{
  check_monsters, check_effects, check_encounter, validate_advanced_encounter,
}
use munchkin.Validation.FlightWindows.{validate_target_and_run_away}
use munchkin.Validation.Trades.{validate_player_economy, orphan_window}
use munchkin.Validation.Loot.{validate_theft, validate_death_loot}
use munchkin.Validation.Zones.{add_zone, add_zones, player_zones, zones, validate_instance_zones}
use munchkin.Validation.Players.{
  check_players, check_active_turn, check_status, check_table, validate,
}
use munchkin.Shared.{Time, distinct_from, true, List, err}
use munchkin.Shared.{panic}
use munchkin.Content.{card_by_id}
use munchkin.Model.{
  Phase, Player, DeathLoot, Turn, definition_for_instance, InteractionKind, InteractionSubjectKind,
  InteractionEligibilityPolicy, InteractionWindowStatus, InteractionCloseReason,
}
use munchkin.Profile.{death_loot_profile}
use munchkin.Cards.{remove_string}
use munchkin.Cards.Piles.{RandomOutcome, append_discard}
use munchkin.Validation.Trades.{check_economy, check_charity}
use munchkin.Validation.Loot.{check_death_loot, check_seats}
use munchkin.Interaction.Recording.{require_interaction_window}
use munchkin.DeathLoot.{
  LootCommand, LootAction, Seat, loot_outcome, handle_death_loot_priority, loot_seat, loot_action,
  give_card, current_death_loot_actor, advance_loot, discard_all,
}
use munchkin.DeathLoot.Turns.{Advanced, handle_death_loot_priority-Advanced}
use munchkin.DeathLoot.Safety.{loot_action-ne-panic}
use munchkin.Examples.Packs.{door_pack}
use munchkin.Examples.Table.{table, player, combat_turn, waiting, combat_window}

abbrev soon : Time
soon = pos 1005000000000

abbrev dead_player : Player
dead_player = record (player "bob" []) { dead = true; needs_redraw = true }

-- Cid has passed, and it is Ann's turn to pick.
abbrev bob_loot : DeathLoot
bob_loot = record {
  dead_player_id = "bob";
  initial_count = pos 2;
  pool = "t1" ∷ "d3" ∷ [];
  seat_order = "cid" ∷ "ann" ∷ [];
  seat_index = pos 1;
  picks = [];
  passed_player_ids = "cid" ∷ [];
  discarded_instance_ids = [];
  completed = false;
}

abbrev loot_window : InteractionWindow
loot_window = record combat_window {
  kind = InteractionKind.death_loot_priority;
  parent = record {
    phase = Phase.charity;
    subject_kind = InteractionSubjectKind.turn;
    subject_id = "ann";
    parent_interaction_id = "";
  };
  eligibility_policy = InteractionEligibilityPolicy.actor_private;
  eligible_actor_ids = "ann" ∷ [];
  deadline_at = pos 1030000000000;
  deadline_policy = record {
    base_seconds = pos 30;
    late_threshold_seconds = pos 0;
    extension_step_seconds = pos 0;
    max_seconds = pos 30;
  };
  extension_budget_seconds = pos 0;
  responses = ("ann", waiting) ∷ [];
}

abbrev quiet_turn : Turn
quiet_turn = record combat_turn {
  phase = Phase.charity;
  encounter = none;
  action_window = record { kind = Phase.charity; eligible_actor_ids = "ann" ∷ [] };
}

abbrev loot_table : State
loot_table = record table {
  players = player "ann" [] ∷ dead_player ∷ player "cid" [] ∷ [];
  turn = quiet_turn;
  door_discard = "d2" ∷ "d4" ∷ "m1" ∷ [];
  rules_profile_id = "lobby-multiplayer-v4";
  interaction_window = some loot_window;
  death_loot = some bob_loot;
}

abbrev ann_picks : LootCommand
ann_picks = record {
  action = LootAction.pick;
  actor_id = "ann";
  instance_id = "t1";
  interaction_id = "w1";
  interaction_revision = 1;
  interaction_at = soon;
}

abbrev ann_seat : Seat
ann_seat = record { w = loot_window; loot = bob_loot; actor = "ann"; response = waiting }

-- Ann has her card, and the other one is discarded.
abbrev looted : State
looted = record loot_table {
  players = player "ann" ("t1" ∷ []) ∷ dead_player ∷ player "cid" [] ∷ [];
  door_discard = "d2" ∷ "d4" ∷ "m1" ∷ "d3" ∷ [];
  interaction_window = some (record loot_window {
    responses =
        (
          "ann",
          record waiting {
            state = InteractionResponseState.acted;
            intent = InteractionIntent.respond;
            accepted_at = soon;
          },
        )
        ∷ [];
    status = InteractionWindowStatus.closed;
    close_reason = InteractionCloseReason.all_responded;
    closed_at = soon;
  });
  death_loot = some (record bob_loot {
    pool = [];
    seat_index = pos 2;
    picks = record { player_id = "ann"; instance_id = "t1" } ∷ [];
    discarded_instance_ids = "d3" ∷ [];
    completed = true;
  });
}

abbrev looted_outcomes : List RandomOutcome
looted_outcomes =
    loot_outcome "death_loot_pick" ("t1" ∷ []) ∷ loot_outcome "death_loot_discard" ("d3" ∷ []) ∷ []

-- The table is valid, Ann has the priority, and her pick is accepted.
ann_runs :
    (validate loot_table ≡ done)
    × (loot_seat loot_table ann_picks false ≡ ok ann_seat)
    × (handle_death_loot_priority loot_table ann_picks door_pack false
        ≡ ok (looted, looted_outcomes))
unfolding validate check_table check_players check_status check_active_turn
    validate_interaction_window check_window check_window_context check_intents check_actors
    check_actor interaction_parent_matches validate_interaction_response valid_phase
    valid_interaction_kind valid_interaction_subject_kind valid_interaction_eligibility_policy
    valid_interaction_intent valid_interaction_close_reason response_of interaction_all_responded
    interaction_has_response_state validate_interaction_deadline malformed_deadline
    malformed_extension beyond_cap validate_combat_help validate_combat_help_agreement
    validate_advanced_encounter check_encounter check_monsters check_effects
    validate_target_and_run_away validate_player_economy orphan_window validate_theft
    validate_death_loot validate_instance_zones zones player_zones add_zones add_zone
    all_owned_zones player_index player_by_id encounter_monster_instance_ids profile rules_profile
    unique_strings any all each contains find_index lookup insert is_blank String-discrete
    ℕ_discrete ℤ-discrete Phase-discrete Status-discrete InteractionIntent-discrete
    InteractionResponseState-discrete InteractionResponseRequirement-discrete
    InteractionWindowStatus-discrete InteractionCloseReason-discrete InteractionKind-discrete
    InteractionSubjectKind-discrete InteractionEligibilityPolicy-discrete ◌-ℤ◌ ◌+ℤ◌ seconds
    require_interaction_window handle_death_loot_priority loot_seat loot_action give_card
    current_death_loot_actor advance_loot discard_all append_discard remove_string
    definition_for_instance card_by_id death_loot_profile check_death_loot check_seats check_economy
    check_charity distinct_from
ann_runs = (refl, refl, refl)

handle_death_loot_priority-Advanced_example : (l : DeathLoot) × Advanced loot_table looted l
handle_death_loot_priority-Advanced_example =
    handle_death_loot_priority-Advanced loot_table ann_picks door_pack false ann_runs.2

loot_action-ne-panic_example :
    loot_action ann_picks.action loot_table ann_picks false ann_seat ≢ err panic
loot_action-ne-panic_example =
    loot_action-ne-panic loot_table ann_picks false ann_seat ann_runs.0 ann_runs.1

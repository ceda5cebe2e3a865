-- ===== src/Examples/Playing.antt =====
-- Commands of a player at concrete tables.
use munchkin.Shared.{
  Result, String-Eq, String-discrete, [], all, any, contains, distinct_from, done, each, err, false,
  find_index, get_elem?, inl, insert, is_blank, lookup, none, ok, pos, refl, same_list, seconds,
  some, suc, sum_over, zero_time, ℕ, ℕ-Eq, ℕ_discrete, ℤ-Eq, ℤ-discrete, ◌%◌, ◌+ℤ◌, ◌-ℤ◌, ◌∷◌, ◌≡◌,
}
use munchkin.Cards.{append_unique, remove_string, unique_from, unique_strings}
use munchkin.Cards.Piles.{append_discard, discard_to}
use munchkin.Cards.Transfers.{is_cheated}
use munchkin.Commands.Equipment.{handle_equip_item}
use munchkin.Commands.Equipment.Legality.{LegalAt, dressed-LegalAt}
use munchkin.Commands.Guards.{
  new_state_event, new_turn, reconcile_strictly, require_active_actor, require_phase, transition,
}
use munchkin.Commands.Kinds.{
  Command, CommandType, CommandType-Eq, CommandType-discrete, EventType, StateChanged,
}
use munchkin.Commands.Preparing.{finish_setup_for_player, next_to_set_up, pass_setup}
use munchkin.Commands.Preparing.Order.{Finished, finish_setup_for_player-Finished}
use munchkin.Commands.Turns.{handle_end_turn, handle_loot_room, redraw}
use munchkin.Commands.Turns.Passing.{handle_end_turn-turn}
use munchkin.Content.{
  CardKind-discrete, CombatCapabilityKind-discrete, ItemSize-discrete, ItemSlot-discrete,
  TraitGroup-discrete, card_by_id,
}
use munchkin.Effects.Queue.{set_turn_phase}
use munchkin.Examples.Packs.{hat_pack}
use munchkin.Examples.Table.{combat_turn, player, table}
use munchkin.Model.{
  EconomyOfferKind-discrete, InteractionCloseReason, InteractionCloseReason-Eq,
  InteractionCloseReason-discrete, InteractionEligibilityPolicy-discrete, InteractionIntent,
  InteractionIntent-Eq, InteractionIntent-discrete, InteractionKind-discrete,
  InteractionResponseRequirement-discrete, InteractionResponseState-discrete,
  InteractionSubjectKind-discrete, InteractionWindowStatus-discrete, PendingType-discrete, Phase,
  Phase-Eq, Phase-discrete, Player, RunAwayEffectKind-discrete, State, Status-Eq, Status-discrete,
  all_owned_zones, definition_for_instance, encounter_monster_instance_ids, player_by_id,
  player_index,
}
use munchkin.Profile.{
  advanced_combat_profile, death_loot_profile, first_edition_core_profile,
  lobby_multiplayer_profile, profile, rules_profile, theft_profile,
}
use munchkin.Rules.Character.{
  add_tags, allowance_of, character_tags, count_traits, definitions_of, item_amount,
  item_restrictions_satisfied, player_definitions, trait_amount, trait_capacity, trait_count,
  trait_tags,
}
use munchkin.Rules.Loadout.{
  big_conflict, big_items, big_options, can_equip, check_cheat, check_slots, hands_used, keep_as,
  keep_attachment, keep_attachments, keep_while, owned_big_items, reconcile_equipment,
  reconcile_loadout, reconcile_player, split_equipped, trait_conflict, trait_conflicts,
  trait_options, worn,
}
use munchkin.Validation.Deadlines.{
  beyond_cap, malformed_deadline, malformed_extension, validate_interaction_deadline,
}
use munchkin.Validation.Encounters.{
  check_effects, check_encounter, check_monsters, counters_of, validate_advanced_encounter,
}
use munchkin.Validation.FlightWindows.{validate_target_and_run_away}
use munchkin.Validation.Flights.{
  check_attempts, check_sequence, check_target, validate_run_away_effects,
}
use munchkin.Validation.Help.{validate_combat_help, validate_combat_help_agreement}
use munchkin.Validation.Loot.{
  check_death_loot, check_loot, check_seats, validate_death_loot, validate_theft,
}
use munchkin.Validation.Players.{
  check_active_turn, check_players, check_status, check_table, validate,
}
use munchkin.Validation.Responses.{
  interaction_all_responded, interaction_has_response_state, response_of,
  valid_interaction_close_reason, valid_interaction_eligibility_policy, valid_interaction_intent,
  valid_interaction_kind, valid_interaction_subject_kind, valid_phase,
  validate_interaction_response,
}
use munchkin.Validation.Trades.{
  check_charity, check_economy, orphan_window, validate_player_economy,
}
use munchkin.Validation.Windows.{
  check_actor, check_actors, check_intents, check_window, check_window_context,
  interaction_parent_matches, validate_interaction_window,
}
use munchkin.Validation.Zones.{add_zone, add_zones, player_zones, validate_instance_zones, zones}

abbrev no_command : Command
no_command = record {
  command_type = CommandType.other "";
  actor_id = "ann";
  player_id = "";
  display_name = "";
  credential_hash = "";
  instance_id = "";
  target_instance_id = "";
  instance_ids = [];
  requested_instance_ids = [];
  charity_allocations = [];
  choice_ids = [];
  ability_index = pos 0;
  interaction_id = "";
  interaction_intent = InteractionIntent.other "";
  interaction_at = zero_time;
  interaction_revision = 0;
  interaction_close_reason = InteractionCloseReason.other "";
  interaction_window = none;
  child_interaction_id = "";
  helper_player_id = "";
  target_effect_id = "";
  target_player_id = "";
  reward_treasures = pos 0;
}

-- Ann's turn without a combat, in a phase.
abbrev quiet : Phase → State
quiet phase = record table {
  turn = record combat_turn {
    phase = phase;
    encounter = none;
    action_window = record { kind = phase; eligible_actor_ids = "ann" ∷ [] };
  };
  door_deck = "d1" ∷ "m1" ∷ [];
  interaction_window = none;
}

-- Ann puts on the hat that she holds.
abbrev equips : Command
equips = record no_command { command_type = CommandType.equip_item; instance_id = "t1" }

-- The event of a result; it is not looked at where there is none.
abbrev event_of : Result StateChanged → StateChanged
event_of (ok event) = event
event_of (err _) = record {
  event_type = EventType.card_played;
  reason = CommandType.other "";
  state = table;
  outcomes = [];
}

abbrev equipped_event : StateChanged
equipped_event = event_of (handle_equip_item (quiet Phase.preparation) equips hat_pack)

equipped_run : handle_equip_item (quiet Phase.preparation) equips hat_pack ≡ ok equipped_event
unfolding Phase-discrete Status-discrete String-discrete add_zone add_zones all all_owned_zones any
    beyond_cap can_equip card_by_id check_active_turn check_actor check_actors check_charity
    check_death_loot check_economy check_effects check_encounter check_intents check_monsters
    check_players check_status check_table check_window check_window_context contains
    definition_for_instance distinct_from each encounter_monster_instance_ids find_index
    handle_equip_item insert interaction_all_responded interaction_has_response_state
    interaction_parent_matches is_blank lookup malformed_deadline malformed_extension append_discard
    discard_to is_cheated append_unique unique_from new_state_event reconcile_strictly transition
    CommandType-discrete CardKind-discrete CombatCapabilityKind-discrete ItemSize-discrete
    ItemSlot-discrete TraitGroup-discrete EconomyOfferKind-discrete InteractionCloseReason-discrete
    InteractionEligibilityPolicy-discrete InteractionIntent-discrete InteractionKind-discrete
    InteractionResponseRequirement-discrete InteractionResponseState-discrete
    InteractionSubjectKind-discrete InteractionWindowStatus-discrete PendingType-discrete
    RunAwayEffectKind-discrete advanced_combat_profile death_loot_profile first_edition_core_profile
    lobby_multiplayer_profile theft_profile add_tags allowance_of character_tags count_traits
    definitions_of item_amount item_restrictions_satisfied player_definitions trait_amount
    trait_capacity trait_count trait_tags big_conflict big_items big_options check_cheat check_slots
    hands_used keep_as keep_attachment keep_attachments keep_while owned_big_items
    reconcile_equipment reconcile_loadout reconcile_player split_equipped trait_conflict
    trait_conflicts trait_options worn same_list seconds sum_over counters_of check_attempts
    check_sequence check_target validate_run_away_effects check_loot check_seats orphan_window
    player_by_id player_index player_zones profile remove_string require_active_actor require_phase
    response_of rules_profile unique_strings valid_interaction_close_reason
    valid_interaction_eligibility_policy valid_interaction_intent valid_interaction_kind
    valid_interaction_subject_kind valid_phase validate validate_advanced_encounter
    validate_combat_help validate_combat_help_agreement validate_death_loot validate_instance_zones
    validate_interaction_deadline validate_interaction_response validate_interaction_window
    validate_player_economy validate_target_and_run_away validate_theft zones ℕ_discrete ℤ-discrete
    ◌+ℤ◌ ◌-ℤ◌
equipped_run = refl

dressed-LegalAt_example :
    (i : ℕ) × (player_index (quiet Phase.preparation) "ann" ≡ some i)
    × (LegalAt equipped_event.state i hat_pack × (validate equipped_event.state ≡ done))
dressed-LegalAt_example =
    dressed-LegalAt (quiet Phase.preparation) equips hat_pack equipped_event (inl equipped_run)

-- Ann loots the room.
abbrev looting_event : StateChanged
looting_event = event_of (handle_loot_room (quiet Phase.door_choice) no_command)

-- Ann ends her turn.
abbrev passing_event : StateChanged
passing_event = event_of (handle_end_turn (quiet Phase.end_turn) no_command)

passing_run : handle_end_turn (quiet Phase.end_turn) no_command ≡ ok passing_event
unfolding Phase-discrete Status-discrete String-discrete add_zone add_zones all all_owned_zones any
    beyond_cap card_by_id check_active_turn check_actor check_actors check_charity check_death_loot
    check_economy check_effects check_encounter check_intents check_monsters check_players
    check_status check_table check_window check_window_context contains definition_for_instance
    distinct_from each encounter_monster_instance_ids find_index handle_end_turn insert
    interaction_all_responded interaction_has_response_state interaction_parent_matches is_blank
    lookup malformed_deadline malformed_extension transition set_turn_phase
    lobby_multiplayer_profile orphan_window player_by_id player_index player_zones profile redraw
    remove_string require_active_actor require_phase response_of rules_profile unique_strings
    valid_interaction_close_reason valid_interaction_eligibility_policy valid_interaction_intent
    valid_interaction_kind valid_interaction_subject_kind valid_phase validate
    validate_advanced_encounter validate_combat_help validate_combat_help_agreement
    validate_death_loot validate_instance_zones validate_interaction_deadline
    validate_interaction_response validate_interaction_window validate_player_economy
    validate_target_and_run_away validate_theft zones ℕ_discrete ℤ-discrete ◌+ℤ◌ ◌-ℤ◌
passing_run = refl

handle_end_turn-turn_example :
    (i : ℕ) × (p : Player) × (player_index (quiet Phase.end_turn) "ann" ≡ some i)
    × (get_elem? (quiet Phase.end_turn).players (suc i % 3) ≡ some p)
    × (passing_event.state.turn ≡ record (new_turn p.id 2) {
      phase = Phase.preparation;
      action_window = record { kind = Phase.preparation; eligible_actor_ids = p.id ∷ [] };
    })
handle_end_turn-turn_example =
    handle_end_turn-turn (quiet Phase.end_turn) no_command passing_event passing_run

-- Ann finishes the setup before Bob.
abbrev setting_up : State
setting_up = record (quiet Phase.setup) {
  players =
      record (player "ann" ("t1" ∷ [])) { setup_done = false }
      ∷ record (player "bob" ("d3" ∷ [])) { setup_done = false }
      ∷ player "cid" []
      ∷ [];
}

abbrev setup_event : StateChanged
setup_event = event_of (finish_setup_for_player setting_up no_command 0)

setup_run : finish_setup_for_player setting_up no_command 0 ≡ ok setup_event
unfolding Phase-discrete Status-discrete String-discrete add_zone add_zones all all_owned_zones any
    beyond_cap card_by_id check_active_turn check_actor check_actors check_charity check_death_loot
    check_economy check_effects check_encounter check_intents check_monsters check_players
    check_status check_table check_window check_window_context contains definition_for_instance
    distinct_from each encounter_monster_instance_ids find_index finish_setup_for_player insert
    interaction_all_responded interaction_has_response_state interaction_parent_matches is_blank
    lobby_multiplayer_profile lookup malformed_deadline malformed_extension pass_setup
    next_to_set_up orphan_window player_by_id player_index player_zones profile remove_string
    response_of rules_profile set_turn_phase transition unique_strings
    valid_interaction_close_reason valid_interaction_eligibility_policy valid_interaction_intent
    valid_interaction_kind valid_interaction_subject_kind valid_phase validate
    validate_advanced_encounter validate_combat_help validate_combat_help_agreement
    validate_death_loot validate_instance_zones validate_interaction_deadline
    validate_interaction_response validate_interaction_window validate_player_economy
    validate_target_and_run_away validate_theft zones ℕ_discrete ℤ-discrete ◌+ℤ◌ ◌-ℤ◌
setup_run = refl

finish_setup_for_player-Finished_example : Finished setting_up 0 setup_event.state
finish_setup_for_player-Finished_example =
    finish_setup_for_player-Finished setting_up no_command 0 setup_event setup_run

-- ===== src/Examples/Storing.antt =====
-- The store at concrete inputs.
use munchkin.Shared.{
  Bool, List, String, String-Eq, String-discrete, Time, [], all, any, ap, arith, contains,
  distinct_from, done, each, find_index, insert, is_blank, is_yes, lookup, none, ok, pos, refl,
  some, true, ℕ-Eq, ℕ_discrete, ℤ-Eq, ℤ-discrete, ◌++◌, ◌+ℤ◌, ◌-ℤ◌, ◌∷◌, ◌≡◌,
}
use munchkin.Cards.{remove_string, unique_strings}
use munchkin.Commands.Events.{
  state_changed, EventEnvelope, another_game, apply, apply_lobby_created, apply_state_changed,
  malformed_envelope, replay, replay_from, replay_loop, replay_one,
}
use munchkin.Commands.Kinds.{CommandType, CommandType-Eq, EventType}
use munchkin.Content.{card_by_id}
use munchkin.Interaction.Events.{commit}
use munchkin.Model.{
  Phase-Eq, Phase-discrete, State, Status-Eq, Status-discrete, all_owned_zones,
  definition_for_instance, encounter_monster_instance_ids, player_by_id, player_index,
}
use munchkin.Profile.{lobby_multiplayer_profile, profile, rules_profile}
use munchkin.Examples.Table.{noon}
use munchkin.Examples.Histories.{first_event, lobby, lobby_run}
use munchkin.Store.{
  finds, reads, returns, saves, Callback, GameRecord, InteractionDeadline, Receipt, Records,
  Transaction, begin, check_save, create, deadline_from_state, file_receipt, find_receipt,
  receipt_key, run, save, validate_receipt, within_game,
}
use munchkin.Store.Due.{
  candidates, due_deadline, due_interactions, earlier, first_due, into_sorted, sorted_candidates,
}
use munchkin.Store.Due.Answers.{Outcome, due_interactions-Answered}
use munchkin.Store.Durability.{run-events, run-find_receipt}
use munchkin.Store.Soundness.{AllSound, create-AllSound, save-find_receipt, within_game-AllSound}
use munchkin.Validation.Deadlines.{
  beyond_cap, malformed_deadline, malformed_extension, validate_interaction_deadline,
}
use munchkin.Validation.Encounters.{
  check_effects, check_encounter, check_monsters, validate_advanced_encounter,
}
use munchkin.Validation.FlightWindows.{validate_target_and_run_away}
use munchkin.Validation.Help.{validate_combat_help, validate_combat_help_agreement}
use munchkin.Validation.Loot.{check_death_loot, validate_death_loot, validate_theft}
use munchkin.Validation.Players.{
  check_active_turn, check_players, check_status, check_table, validate,
}
use munchkin.Validation.Responses.{
  interaction_all_responded, interaction_has_response_state, response_of,
  valid_interaction_close_reason, valid_interaction_eligibility_policy, valid_interaction_intent,
  valid_interaction_kind, valid_interaction_subject_kind, valid_phase,
  validate_interaction_response,
}
use munchkin.Validation.Trades.{
  check_charity, check_economy, orphan_window, validate_player_economy,
}
use munchkin.Validation.Windows.{
  check_actor, check_actors, check_intents, check_window, check_window_context,
  interaction_parent_matches, validate_interaction_window,
}
use munchkin.Validation.Zones.{add_zone, add_zones, player_zones, validate_instance_zones, zones}

-- `reflect.DeepEqual` as the decision of equality.
state_discrete : Discrete State
state_discrete = hlevel (String-discrete, ℤ-discrete, ℕ_discrete)

abbrev is_same : State → State → Bool
is_same s t = is_yes (state_discrete s t)

is_yes_sound {ℓ} : {P : Type ℓ} (d : Dec P) → is_yes d ≡ true → P
is_yes_sound (yes p) h = p
is_yes_sound (no n) h = absurd (ground arith)

is_yes_complete {ℓ} : {P : Type ℓ} (d : Dec P) → P → is_yes d ≡ true
is_yes_complete (yes p) h = refl
is_yes_complete (no n) h = absurd (n h)

is_same_sound : (s t : State) → is_same s t ≡ true → s ≡ t
is_same_sound s t = is_yes_sound (state_discrete s t)

is_same_refl : (s : State) → is_same s s ≡ true
is_same_refl s = is_yes_complete (state_discrete s s) refl

abbrev fresh_record : GameRecord
fresh_record = record { state = lobby; events = first_event ∷ []; receipts = []; deadline = none }

abbrev fresh_store : Records
fresh_store = ("g1", fresh_record) ∷ []

create_run : create is_same [] lobby (first_event ∷ []) ≡ ok fresh_store
unfolding create replay insert lookup deadline_from_state
create_run = rw (lobby_run, is_same_refl lobby) refl

no_records : AllSound []
unfolding lookup
no_records id r h = absurd (ground arith)

create-AllSound_example : AllSound fresh_store
create-AllSound_example =
    create-AllSound is_same is_same_sound [] lobby (first_event ∷ []) fresh_store no_records
      create_run

abbrev second_event : EventEnvelope
second_event = record {
  game_id = "g1";
  sequence = 2;
  event_id = "e2";
  command_id = "c2";
  event = state_changed (record {
    event_type = EventType.setup_finished;
    reason = CommandType.finish_setup;
    state = lobby;
    outcomes = [];
  });
  schema = 1;
  occurred_at = noon;
}

abbrev second_lobby : State
second_lobby = record lobby { version = 2 }

second_run : replay_from lobby (second_event ∷ []) ≡ ok second_lobby
unfolding Phase-discrete Status-discrete String-discrete add_zone add_zones all all_owned_zones any
    apply apply_lobby_created beyond_cap card_by_id check_active_turn check_actor check_actors
    check_charity check_death_loot check_economy check_effects check_encounter check_intents
    check_monsters check_players check_status check_table check_window check_window_context commit
    contains definition_for_instance distinct_from each encounter_monster_instance_ids find_index
    insert interaction_all_responded interaction_has_response_state interaction_parent_matches
    is_blank lobby_multiplayer_profile lookup malformed_deadline malformed_envelope
    malformed_extension another_game apply_state_changed orphan_window player_by_id player_index
    player_zones profile remove_string replay_from replay_loop replay_one response_of rules_profile
    unique_strings valid_interaction_close_reason valid_interaction_eligibility_policy
    valid_interaction_intent valid_interaction_kind valid_interaction_subject_kind valid_phase
    validate validate_advanced_encounter validate_combat_help validate_combat_help_agreement
    validate_death_loot validate_instance_zones validate_interaction_deadline
    validate_interaction_response validate_interaction_window validate_player_economy
    validate_target_and_run_away validate_theft zones ℕ_discrete ℤ-discrete ◌+ℤ◌ ◌-ℤ◌
second_run = refl

abbrev answer : Receipt
answer = record {
  actor_id = "ann";
  command_id = "c2";
  fingerprint = "f";
  version = 2;
  projection = "{}";
}

abbrev first_tx : Transaction
first_tx = begin "g1" fresh_record

check_run : check_save is_same first_tx 1 second_lobby (second_event ∷ []) (some answer) ≡ done
unfolding String-discrete check_save validate_receipt ℕ_discrete
check_run = rw (second_run, is_same_refl second_lobby) refl

abbrev saved_tx : Transaction
saved_tx = record first_tx {
  current = record {
    state = second_lobby;
    events = first_event ∷ second_event ∷ [];
    receipts = (receipt_key "ann" "c2", answer) ∷ [];
    deadline = none;
  };
  saved = true;
}

save_run : save is_same first_tx 1 second_lobby (second_event ∷ []) (some answer) ≡ (saved_tx, done)
unfolding save file_receipt insert lookup deadline_from_state
save_run = rw (save, check_run) refl

save-find_receipt_example :
    find_receipt
      (save is_same first_tx 1 second_lobby (second_event ∷ []) (some answer)).0
      "ann"
      "c2"
    ≡ some answer
save-find_receipt_example =
    save-find_receipt is_same first_tx 1 second_lobby (second_event ∷ []) answer
      (ap (λ r. r.1) save_run)

-- A callback that looks for the receipt, reads the state and saves.
abbrev handle : Callback
handle = finds "ann" "c2" (λ _. reads (λ s.
    saves s.version second_lobby (second_event ∷ []) (some answer) (λ result. returns result)))

within_run : within_game is_same fresh_store "g1" handle ≡ ok (("g1", saved_tx.current) ∷ [])
unfolding within_game run find_receipt insert lookup String-discrete
within_run = rw (save_run) refl

within_game-AllSound_example : AllSound (("g1", saved_tx.current) ∷ [])
within_game-AllSound_example =
    within_game-AllSound is_same is_same_sound fresh_store "g1" handle
      (("g1", saved_tx.current) ∷ []) create-AllSound_example within_run

found_run : find_receipt saved_tx "ann" "c2" ≡ some answer
unfolding find_receipt lookup receipt_key String-discrete
found_run = refl

run-find_receipt_example : find_receipt (run is_same handle saved_tx).0 "ann" "c2" ≡ some answer
run-find_receipt_example = run-find_receipt is_same handle saved_tx "ann" "c2" answer found_run

run-events_example :
    (added : List EventEnvelope) × ((run is_same handle first_tx).0.current.events
      ≡ (first_event ∷ []) ++ added)
run-events_example = run-events is_same handle first_tx

-- Two games whose windows are due, the later one first.
abbrev waiting : String → Time → String × GameRecord
waiting id at = (
  id,
  record fresh_record {
    deadline =
        some
          (record { game_id = id; interaction_id = "w"; deadline_revision = 1; deadline_at = at });
  },
)

abbrev found_deadlines : List InteractionDeadline
found_deadlines =
    record { game_id = "g2"; interaction_id = "w"; deadline_revision = 1; deadline_at = pos 5 }
    ∷ record { game_id = "g1"; interaction_id = "w"; deadline_revision = 1; deadline_at = pos 6 }
    ∷ []

due_run :
    due_interactions
      (λ _. done)
      (waiting "g1" (pos 6) ∷ waiting "g3" (pos 9) ∷ waiting "g2" (pos 5) ∷ [])
      (pos 7)
      (pos 4)
    ≡ ok found_deadlines
unfolding candidates due_deadline due_interactions earlier first_due into_sorted sorted_candidates
    ℕ_discrete ℤ-discrete
due_run = refl

due_interactions-Answered_example :
    Outcome
      (λ _. done)
      (waiting "g1" (pos 6) ∷ waiting "g3" (pos 9) ∷ waiting "g2" (pos 5) ∷ [])
      (pos 7)
      (pos 4)
due_interactions-Answered_example =
    due_interactions-Answered (λ _. done)
      (waiting "g1" (pos 6) ∷ waiting "g3" (pos 9) ∷ waiting "g2" (pos 5) ∷ []) (pos 7) (pos 4)

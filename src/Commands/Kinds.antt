-- ===== src/Commands/Kinds.antt =====
-- Commands and the events of changed states, backend/game/internal/game/engine.go and event.go.
use munchkin.Shared.{Eq, List, Option, String, String-Eq, String-discrete, Time, ℕ, ℕ-Eq, ℤ, ℤ-Eq}
use munchkin.Cards.Piles.{RandomOutcome}
use munchkin.Model.{
  CharityAllocation, InteractionCloseReason, InteractionCloseReason-Eq, InteractionIntent,
  InteractionIntent-Eq, InteractionWindow, State,
}

-- `CommandType`.
pub data CommandType : Type 0 where
  join start finish_setup play_card equip_item unequip_item discard_card sell_items open_door
        look_for_trouble loot_room use_ability resolve_combat request_combat_resolution run_away
        choose_effect choose_run_away_monster resolve_charity end_turn open_interaction_window
        respond_interaction pass_interaction timeout_interaction close_interaction_window
        play_combat_intervention play_advanced_combat_effect complete_combat_resolution
        offer_combat_help respond_combat_help cancel_combat_help play_target_effect
        counter_target_effect resolve_target_effect play_run_away_modifier counter_run_away_effect
        resolve_run_away_step propose_trade propose_gift respond_economy_offer cancel_economy_offer
        begin_charity_transfer attempt_theft counter_theft resolve_theft pick_death_loot
        pass_death_loot fight loot :
      CommandType
  other : String → CommandType

unfoldable pub CommandType-discrete : Discrete CommandType
CommandType-discrete = hlevel String-discrete

instance abbrev pub CommandType-Eq : Eq CommandType
CommandType-Eq = record { same = CommandType-discrete }

-- The types of the events that carry a whole state.
pub data EventType : Type 0 where
  player_joined game_started setup_finished setup_discard_required card_played equipment_changed
        items_sold door_opened trouble_sought room_looted combat_action combat_resolved
        combat_help_reward_settled combat_help_reward_voided target_effect_started
        target_effect_countered target_effect_resolved run_away_response_applied
        run_away_step_resolved run_away_monster_chosen economy_offer_opened economy_offer_resolved
        charity_transfer_started charity_allocated theft_attempt_started theft_resolved
        death_loot_advanced run_away_resolved effect_resolved charity_resolved turn_advanced :
      EventType

pub record Command : Type 0 where
  pub command_type : CommandType
  pub actor_id : String
  pub player_id : String
  pub display_name : String
  pub credential_hash : String
  pub instance_id : String
  pub target_instance_id : String
  pub instance_ids : List String
  pub requested_instance_ids : List String
  pub charity_allocations : List CharityAllocation
  pub choice_ids : List String
  pub ability_index : ℤ
  pub interaction_id : String
  pub interaction_intent : InteractionIntent
  pub interaction_at : Time
  pub interaction_revision : ℕ
  pub interaction_close_reason : InteractionCloseReason
  pub interaction_window : Option InteractionWindow
  pub child_interaction_id : String
  pub helper_player_id : String
  pub target_effect_id : String
  pub target_player_id : String
  pub reward_treasures : ℤ

-- `stateChangedPayload`, with the type of its event.
pub record StateChanged : Type 0 where
  pub event_type : EventType
  pub reason : CommandType
  pub state : State
  pub outcomes : List RandomOutcome

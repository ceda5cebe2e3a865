-- ===== src/Model/Turns.antt =====
-- The turn, its combat and its flight, backend/game/internal/game/model.go.
use munchkin.Shared.{String, Bool, ℕ, ℤ, List, Option, ◌∷◌}
use munchkin.Content.{CombatCapabilityKind, Effect}
use munchkin.Model.Kinds.{Phase, CombatHelpRewardStatus, RunAwayEffectKind, PendingType}

pub record CombatEffect : Type 0 where
  pub id : String
  pub kind : CombatCapabilityKind
  pub target_monster_instance_id : String
  pub target_effect_id : String
  pub amount : ℤ
  pub active : Bool

pub record CombatHelpAgreement : Type 0 where
  pub helper_player_id : String
  pub reward_treasures : ℤ
  pub reward_status : CombatHelpRewardStatus
  pub forced : Bool

pub record Encounter : Type 0 where
  pub monster_instance_id : String
  pub additional_monster_instance_ids : List String
  pub combat_effects : List CombatEffect
  pub player_combat_modifier : ℤ
  pub monster_combat_modifier : ℤ
  pub escape_modifier : ℤ
  pub treasure_reward_modifier : ℤ
  pub combat_closed : Bool
  pub combat_help : Option CombatHelpAgreement

-- `encounterMonsterInstanceIDs` of effects.go.
unfoldable pub encounter_monster_instance_ids : Encounter → List String
encounter_monster_instance_ids e = e.monster_instance_id ∷ e.additional_monster_instance_ids

pub record CombatHelpOffer : Type 0 where
  pub id : String
  pub parent_interaction_id : String
  pub combatant_player_id : String
  pub helper_player_id : String
  pub reward_treasures : ℤ

pub record ActionWindow : Type 0 where
  pub kind : Phase
  pub eligible_actor_ids : List String

pub record PendingFinalize : Type 0 where
  pub phase : Phase
  pub discard_source : Bool
  pub clear_encounter : Bool
  pub clear_target_effect : Bool
  pub continue_run_away : Bool
  pub source_instance_id : String

pub record PendingDecision : Type 0 where
  pub decision_type : PendingType
  pub actor_id : String
  pub source_instance_id : String
  pub options : List String
  pub minimum : ℤ
  pub maximum : ℤ
  pub effect : Effect
  pub remaining_effects : List Effect
  pub finalize : PendingFinalize

pub record TargetEffectState : Type 0 where
  pub id : String
  pub initiator_player_id : String
  pub target_player_id : String
  pub source_instance_id : String
  pub parent_phase : Phase
  pub countered : Bool

pub record RunAwayEffect : Type 0 where
  pub id : String
  pub kind : RunAwayEffectKind
  pub actor_player_id : String
  pub source_instance_id : String
  pub target_effect_id : String
  pub amount : ℤ
  pub active : Bool

pub record RunAwayAttempt : Type 0 where
  pub player_id : String
  pub monster_instance_id : String
  pub roll : ℤ
  pub modifier : ℤ
  pub total : ℤ
  pub escaped : Bool
  pub automatic : Bool
  pub bad_stuff_applied : Bool

pub record RunAwaySequence : Type 0 where
  pub participant_player_ids : List String
  pub monster_instance_ids : List String
  pub participant_index : ℤ
  pub monster_index : ℤ
  pub effects : List RunAwayEffect
  pub attempts : List RunAwayAttempt
  pub completed : Bool

-- `number` is a uint32.
pub record Turn : Type 0 where
  pub player_id : String
  pub number : ℕ
  pub phase : Phase
  pub encounter : Option Encounter
  pub resolving : List String
  pub action_window : ActionWindow
  pub pending : Option PendingDecision
  pub target_effect : Option TargetEffectState
  pub run_away : Option RunAwaySequence
  pub theft_used : Bool

-- ===== src/Model/Trades.antt =====
-- Offers, charity, theft and the cards of the dead, backend/game/internal/game/model.go.
use munchkin.Shared.{String, Bool, ℤ, List}
use munchkin.Model.Kinds.{Phase, EconomyOfferKind}

pub record EconomyOffer : Type 0 where
  pub id : String
  pub kind : EconomyOfferKind
  pub offerer_player_id : String
  pub recipient_player_id : String
  pub parent_phase : Phase
  pub offered_instance_ids : List String
  pub requested_instance_ids : List String

pub record CharityAllocation : Type 0 where
  pub instance_id : String
  pub recipient_player_id : String

pub record CharityTransfer : Type 0 where
  pub interaction_id : String
  pub allocator_player_id : String
  pub excess : ℤ
  pub stable_hand_order : List String
  pub eligible_recipient_ids : List String
  pub allocations : List CharityAllocation
  pub discarded_instance_ids : List String
  pub completed : Bool

pub record TheftAttempt : Type 0 where
  pub interaction_id : String
  pub thief_player_id : String
  pub victim_player_id : String
  pub source_instance_id : String
  pub ability_index : ℤ
  pub cost_instance_ids : List String
  pub parent_phase : Phase
  pub countered_by : String
  pub counter_instance_id : String
  pub stolen_instance_id : String
  pub resolved : Bool

pub record DeathLootPick : Type 0 where
  pub player_id : String
  pub instance_id : String

pub record DeathLoot : Type 0 where
  pub dead_player_id : String
  pub initial_count : ℤ
  pub pool : List String
  pub seat_order : List String
  pub seat_index : ℤ
  pub picks : List DeathLootPick
  pub passed_player_ids : List String
  pub discarded_instance_ids : List String
  pub completed : Bool

-- ===== src/Profile.antt =====
-- Rules profiles, backend/game/internal/game/model.go.
pub mod Laws
use munchkin.Shared.{
  String, String-Eq, String-discrete, ℕ_discrete, ℤ, pos, ℤ-Eq, ℤ-discrete, Bool, true, false,
  Option, none, some, Eq, ◌==◌, ◌!=◌, ◌&&◌, if◌then◌else◌, Result, Check, ok, or_fail, fail_when,
  done,
}
use munchkin.Shared.{incompatible_state}
use munchkin.Model.{State}
use mathlib.Core.Bool.{Bool-discrete}

pub record RulesProfile : Type 0 where
  pub id : String
  pub version : ℤ
  pub min_players : ℤ
  pub max_players : ℤ
  pub initial_door_cards : ℤ
  pub initial_treasure_cards : ℤ
  pub winning_level : ℤ
  pub hand_limit : ℤ
  pub run_away_target : ℤ
  pub combat_responses : Bool
  pub advanced_combat : Bool
  pub target_and_run_away : Bool
  pub player_economy : Bool
  pub theft : Bool
  pub death_loot : Bool

unfoldable pub RulesProfile-discrete : Discrete RulesProfile
RulesProfile-discrete = hlevel (String-discrete, ℤ-discrete, Bool-discrete)

instance abbrev pub RulesProfile-Eq : Eq RulesProfile
RulesProfile-Eq = record { same = RulesProfile-discrete }

abbrev pub first_edition_core_profile_id : String
first_edition_core_profile_id = "first-edition-core-v1"

abbrev pub lobby_multiplayer_profile_id : String
lobby_multiplayer_profile_id = "lobby-multiplayer-v1"

abbrev pub advanced_combat_profile_id : String
advanced_combat_profile_id = "lobby-multiplayer-v2"

abbrev pub theft_profile_id : String
theft_profile_id = "lobby-multiplayer-v3"

abbrev pub death_loot_profile_id : String
death_loot_profile_id = "lobby-multiplayer-v4"

-- The five profiles; each starts from the one before it. Every version is 1.
unfoldable pub first_edition_core_profile : RulesProfile
first_edition_core_profile = record {
  id = first_edition_core_profile_id;
  version = pos 1;
  min_players = pos 1;
  max_players = pos 6;
  initial_door_cards = pos 4;
  initial_treasure_cards = pos 4;
  winning_level = pos 10;
  hand_limit = pos 5;
  run_away_target = pos 5;
  combat_responses = false;
  advanced_combat = false;
  target_and_run_away = false;
  player_economy = false;
  theft = false;
  death_loot = false;
}

unfoldable pub lobby_multiplayer_profile : RulesProfile
unfolding first_edition_core_profile
lobby_multiplayer_profile = record first_edition_core_profile {
  id = lobby_multiplayer_profile_id;
  version = pos 1;
  combat_responses = true;
}

unfoldable pub advanced_combat_profile : RulesProfile
unfolding lobby_multiplayer_profile
advanced_combat_profile = record lobby_multiplayer_profile {
  id = advanced_combat_profile_id;
  version = pos 1;
  advanced_combat = true;
  target_and_run_away = true;
  player_economy = true;
}

unfoldable pub theft_profile : RulesProfile
unfolding advanced_combat_profile
theft_profile = record advanced_combat_profile {
  id = theft_profile_id;
  version = pos 1;
  theft = true;
}

unfoldable pub death_loot_profile : RulesProfile
unfolding theft_profile
death_loot_profile = record theft_profile {
  id = death_loot_profile_id;
  version = pos 1;
  death_loot = true;
}

-- `rulesProfile`.
unfoldable pub rules_profile : String → ℤ → Option RulesProfile
rules_profile id version =
    if id == first_edition_core_profile_id && version == pos 1
    then some first_edition_core_profile
    else if id == lobby_multiplayer_profile_id && version == pos 1
    then some lobby_multiplayer_profile
    else if id == advanced_combat_profile_id && version == pos 1
    then some advanced_combat_profile
    else if id == theft_profile_id && version == pos 1
    then some theft_profile
    else if id == death_loot_profile_id && version == pos 1
    then some death_loot_profile
    else none

-- `RulesProfile.Validate`.
unfoldable pub validate_profile : RulesProfile → Check
validate_profile p = elim (rules_profile p.id p.version) [
  | none ↦ fail_when true incompatible_state
  | some expected ↦ fail_when (p != expected) incompatible_state
]

-- `State.Profile`.
unfoldable pub profile : State → Result RulesProfile
profile s = or_fail (rules_profile s.rules_profile_id s.rules_profile_version) incompatible_state

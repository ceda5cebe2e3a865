-- ===== src/Model/Players.antt =====
-- Players, card instances and combat results, backend/game/internal/game/model.go.
use munchkin.Shared.{String, Bool, ℤ, List, [], ◌∷◌, Map}

pub record CardInstance : Type 0 where
  pub id : String
  pub definition_id : String

pub record Player : Type 0 where
  pub id : String
  pub name : String
  pub level : ℤ
  pub character_tags : List String
  pub suppressed_tags : List String
  pub hand : List String
  pub carried : List String
  pub equipped : List String
  pub traits : List String
  pub attachments : List String
  pub persistent_curses : List String
  pub cheat_targets : Map String
  pub setup_done : Bool
  pub setup_discard_pending : Bool
  pub dead : Bool
  pub needs_redraw : Bool
  pub credential_hash : String

-- `Player.allOwnedZones`.
unfoldable pub all_owned_zones : Player → List (List String)
all_owned_zones p =
    p.hand ∷ p.carried ∷ p.equipped ∷ p.traits ∷ p.attachments ∷ p.persistent_curses ∷ []

pub record CombatReward : Type 0 where
  pub player_id : String
  pub treasure_instance_ids : List String
  pub levels_gained : ℤ

pub record CombatResult : Type 0 where
  pub outcome : String
  pub rewards : List CombatReward

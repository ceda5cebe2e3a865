-- ===== src/Model/States.antt =====
-- The state of a game, backend/game/internal/game/model.go. States are values here, so
-- `State.Clone` and the `clone` of each part are the identity and have no counterpart.
use munchkin.Shared.{
  String, String-Eq, ℕ, ℤ, List, [], ◌∷◌, Option, none, some, Map, lookup, find_index, ◌==◌,
  if◌then◌else◌, get_elem?,
}
use munchkin.Content.{Pack, Card, card_by_id}
use munchkin.Model.Kinds.{Status}
use munchkin.Model.Players.{Player, CardInstance, CombatResult}
use munchkin.Model.Interactions.{InteractionWindow}
use munchkin.Model.Trades.{EconomyOffer, CharityTransfer, TheftAttempt, DeathLoot}
use munchkin.Model.Turns.{Turn, CombatHelpOffer}

-- `version` and `rng_state` are uint64s.
pub record State : Type 0 where
  pub game_id : String
  pub version : ℕ
  pub status : Status
  pub owner_player_id : String
  pub players : List Player
  pub turn : Turn
  pub instances : Map CardInstance
  pub door_deck : List String
  pub treasure_deck : List String
  pub door_discard : List String
  pub treasure_discard : List String
  pub rng_state : ℕ
  pub content_set_id : String
  pub content_version : ℤ
  pub content_digest : String
  pub rules_profile_id : String
  pub rules_profile_version : ℤ
  pub winner_player_id : String
  pub recent_combat_result : Option CombatResult
  pub interaction_window : Option InteractionWindow
  pub suspended_interaction_window : Option InteractionWindow
  pub combat_help_offer : Option CombatHelpOffer
  pub economy_offer : Option EconomyOffer
  pub charity_transfer : Option CharityTransfer
  pub theft_attempt : Option TheftAttempt
  pub death_loot : Option DeathLoot

-- `State.PlayerIndex`, with `none` for -1.
unfoldable pub player_index : State → String → Option ℕ
player_index s player_id = find_index (λ p. p.id == player_id) s.players

-- The player that `players[PlayerIndex(id)]` denotes, if there is one.
unfoldable pub player_by_id : State → String → Option Player
player_by_id s player_id = elim (player_index s player_id) [
  | none ↦ none
  | some i ↦ get_elem? s.players i
]

-- `State.ActorByCredentialHash`.
actor_with_hash : String → List Player → Option String
actor_with_hash hash [] = none
actor_with_hash hash (p ∷ ps) =
    if p.credential_hash == hash then some p.id else actor_with_hash hash ps

unfoldable pub actor_by_credential_hash : State → String → Option String
unfolding actor_with_hash
actor_by_credential_hash s hash = if hash == "" then none else actor_with_hash hash s.players

-- `Pack.DefinitionForInstance` of content.go.
unfoldable pub definition_for_instance : Pack → State → String → Option (Card × CardInstance)
definition_for_instance pack s instance_id = elim (lookup instance_id s.instances) [
  | none ↦ none
  | some instance_ ↦ elim (card_by_id pack instance_.definition_id) [
    | none ↦ none
    | some card ↦ some (card, instance_)
  ]
]

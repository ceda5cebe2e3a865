-- ===== src/Commands/Events.antt =====
-- The events of the lobby and of changed states, their application and the replay,
-- backend/game/internal/game/event.go and engine.go.
pub mod Replaying
use munchkin.Shared.{
  Bool, List, Result, String, String-Eq, Time, [], fail_when, if◌then◌else◌, is_blank, is_zero,
  none, ok, pos, suc, ℕ, ℕ-Eq, ℤ, ℤ-Eq, ◌!=◌, ◌%◌, ◌&&◌, ◌+◌, ◌==◌, ◌>>=◌, ◌>>◌, ◌^◌, ◌||◌, ◌∷◌,
}
use munchkin.Shared.{illegal_command, unnamed}
use munchkin.Commands.Guards.{new_turn}
use munchkin.Commands.Kinds.{StateChanged}
use munchkin.Content.{Pack}
use munchkin.Interaction.Events.{
  ResponseRecorded, WindowClosed, apply_response_recorded, apply_window_closed, apply_window_opened,
  commit,
}
use munchkin.Model.{InteractionWindow, Phase-Eq, Player, State, Status, Status-Eq}
use munchkin.Profile.{
  RulesProfile, RulesProfile-Eq, advanced_combat_profile, death_loot_profile,
  first_edition_core_profile, lobby_multiplayer_profile, validate_profile,
}

-- `lobbyCreatedPayload`. The seed is a uint64.
pub record LobbyCreated : Type 0 where
  pub game_id : String
  pub owner : Player
  pub seed : ℕ
  pub content_set_id : String
  pub content_version : ℤ
  pub content_digest : String
  pub rules_profile_id : String
  pub rules_profile_version : ℤ

-- `CreateLobbyWithProfile`.
unfoldable pub create_lobby_with_profile :
    String → Player → Pack → ℕ → RulesProfile → Result LobbyCreated
create_lobby_with_profile game_id owner pack seed r = do
  fail_when
      (game_id == "" || (owner.id == "" || (is_blank owner.name || owner.credential_hash == "")))
      illegal_command
  validate_profile r
  ok (record {
    game_id = game_id;
    owner = owner;
    seed = seed;
    content_set_id = pack.set_id;
    content_version = pack.version;
    content_digest = pack.content_digest;
    rules_profile_id = r.id;
    rules_profile_version = r.version;
  })

-- The profile that a pack is played with.
unfoldable pub lobby_profile : Pack → RulesProfile
lobby_profile pack =
    if pack.set_id == "moscow-core" && (pack.version == pos 4 || pack.version == pos 5)
    then death_loot_profile
    else if pack.set_id == "moscow-core" && pack.version == pos 3
    then advanced_combat_profile
    else lobby_multiplayer_profile

unfoldable pub create_lobby : String → Player → Pack → ℕ → Result LobbyCreated
create_lobby game_id owner pack seed =
    create_lobby_with_profile game_id owner pack seed (lobby_profile pack)

unfoldable pub create_legacy_lobby : String → Player → Pack → ℕ → Result LobbyCreated
create_legacy_lobby game_id owner pack seed =
    create_lobby_with_profile game_id owner pack seed first_edition_core_profile

-- `State{}`.
abbrev pub empty_state : State
empty_state = record {
  game_id = "";
  version = 0;
  status = Status.other "";
  owner_player_id = "";
  players = [];
  turn = new_turn "" 0;
  instances = [];
  door_deck = [];
  treasure_deck = [];
  door_discard = [];
  treasure_discard = [];
  rng_state = 0;
  content_set_id = "";
  content_version = pos 0;
  content_digest = "";
  rules_profile_id = "";
  rules_profile_version = pos 0;
  winner_player_id = "";
  recent_combat_result = none;
  interaction_window = none;
  suspended_interaction_window = none;
  combat_help_offer = none;
  economy_offer = none;
  charity_transfer = none;
  theft_attempt = none;
  death_loot = none;
}

-- `Apply` at `EventLobbyCreated`.
unfoldable pub apply_lobby_created : State → LobbyCreated → Result State
apply_lobby_created s p = commit (record empty_state {
  game_id = p.game_id;
  version = s.version;
  status = Status.lobby;
  owner_player_id = p.owner.id;
  players = p.owner ∷ [];
  rng_state = p.seed;
  content_set_id = p.content_set_id;
  content_version = p.content_version;
  content_digest = p.content_digest;
  rules_profile_id = p.rules_profile_id;
  rules_profile_version = p.rules_profile_version;
})

-- Whether two states are not of one game at one version.
unfoldable pub another_game : State → State → Bool
another_game next s =
    next.game_id != s.game_id
    || (next.version != s.version
        || (next.content_set_id != s.content_set_id
            || (next.content_version != s.content_version
                || (next.content_digest != s.content_digest
                    || (next.rules_profile_id != s.rules_profile_id
                        || next.rules_profile_version != s.rules_profile_version)))))

-- `Apply` at the events that carry a state.
unfoldable pub apply_state_changed : State → State → Result State
apply_state_changed s next = do fail_when (another_game next s) illegal_command; commit next

-- The events whose application is modelled. `DomainEvent` has its type as a text and its payload as
-- JSON.
pub data DomainEvent : Type 0 where
  lobby_created : LobbyCreated → DomainEvent
  state_changed : StateChanged → DomainEvent
  window_opened : InteractionWindow → DomainEvent
  response_recorded : ResponseRecorded → DomainEvent
  window_closed : WindowClosed → DomainEvent

-- `Apply`.
unfoldable pub apply : State → DomainEvent → Result State
apply s (lobby_created p) = apply_lobby_created s p
apply s (state_changed p) = apply_state_changed s p.state
apply s (window_opened w) = apply_window_opened s w
apply s (response_recorded p) = apply_response_recorded s p
apply s (window_closed p) = apply_window_closed s p

-- The sequence is a uint64, the schema a uint16.
pub record EventEnvelope : Type 0 where
  pub game_id : String
  pub sequence : ℕ
  pub event_id : String
  pub command_id : String
  pub event : DomainEvent
  pub schema : ℕ
  pub occurred_at : Time

-- The checks of the envelope. Its type is never empty here.
unfoldable pub malformed_envelope : ℕ → EventEnvelope → Bool
malformed_envelope expected v =
    v.sequence != expected
    || (v.game_id == ""
        || (v.event_id == "" || (v.command_id == "" || (v.schema != 1 || is_zero v.occurred_at))))

abbrev pub game_of : String → EventEnvelope → String
game_of game_id v = if game_id == "" then v.game_id else game_id

-- One round of the loop.
unfoldable pub replay_one : ℕ → String → State → EventEnvelope → Result State
replay_one expected game_id s v = do
  fail_when (malformed_envelope expected v) unnamed
  fail_when (v.game_id != game_of game_id v) unnamed
  next ← apply s v.event
  fail_when (next.game_id != game_of game_id v) unnamed
  fail_when (next.version != expected) unnamed
  ok next

-- The loop of `ReplayFrom`, with the initial version, the index and the name of the game.
unfoldable pub replay_loop : ℕ → ℕ → String → State → List EventEnvelope → Result State
replay_loop initial index game_id s [] = ok s
replay_loop initial index game_id s (v ∷ vs) = do
  next ← replay_one ((initial + index + 1) % 2 ^ 64) game_id s v
  replay_loop initial (suc index) (game_of game_id v) next vs

unfoldable pub replay_from : State → List EventEnvelope → Result State
replay_from s events = replay_loop s.version 0 s.game_id s events

unfoldable pub replay : List EventEnvelope → Result State
replay events = replay_from empty_state events

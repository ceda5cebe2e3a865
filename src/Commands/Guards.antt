-- ===== src/Commands/Guards.antt =====
-- Who may act and when, and the event of a command, backend/game/internal/game/engine.go.
pub mod Transitions
use munchkin.Shared.{
  List, Result, String, String-Eq, [], contains, fail_when, false, is_some, none, not, ok, or_fail,
  pos, ℕ, ℕ-Eq, ℤ-Eq, ◌!=◌, ◌&&◌, ◌==◌, ◌>>=◌, ◌>>◌, ◌||◌,
}
use munchkin.Shared.{illegal_command}
use munchkin.Cards.Piles.{RandomOutcome}
use munchkin.Commands.Kinds.{Command, CommandType, CommandType-Eq, EventType, StateChanged}
use munchkin.Content.{Pack}
use munchkin.Model.{Encounter, Phase, Phase-Eq, State, Status, Status-Eq, Turn, player_index}
use munchkin.Rules.Character.{treasure_reward_modifier}
use munchkin.Rules.Loadout.{reconcile_loadout}
use munchkin.Validation.Players.{validate}

-- `requireActiveActor`.
unfoldable pub require_active_actor : State → Command → Result ℕ
require_active_actor s c = do
  fail_when (s.status != Status.active || (c.actor_id == "" || c.actor_id != s.turn.player_id))
      illegal_command
  or_fail (player_index s c.actor_id) illegal_command

-- `requirePhase`.
unfoldable pub require_phase : State → Command → List Phase → Result ℕ
require_phase s c phases = do
  index ← require_active_actor s c
  fail_when (is_some s.turn.pending && c.command_type != CommandType.choose_effect) illegal_command
  fail_when (not (contains phases s.turn.phase)) illegal_command
  ok index

-- `newStateEvent`: the payload as a value, without its JSON.
unfoldable pub new_state_event : EventType → CommandType → State → List RandomOutcome → StateChanged
new_state_event event_type reason next outcomes = record {
  event_type = event_type;
  reason = reason;
  state = next;
  outcomes = outcomes;
}

-- `transition`, with the one event that its list holds.
unfoldable pub transition : EventType → Command → State → List RandomOutcome → Result StateChanged
unfolding new_state_event
transition event_type c next outcomes = do
  validate next
  ok (new_state_event event_type c.command_type next outcomes)

-- `reconcileLoadout` where a conflict is an error like any other.
unfoldable pub reconcile_strictly : State → ℕ → Pack → Result State
reconcile_strictly s i pack = do
  out ← reconcile_loadout s i pack
  fail_when (is_some out.1) illegal_command
  ok out.0

-- `Turn{PlayerID: id, Number: n}`.
abbrev pub new_turn : String → ℕ → Turn
new_turn player_id number = record {
  player_id = player_id;
  number = number;
  phase = Phase.other "";
  encounter = none;
  resolving = [];
  action_window = record { kind = Phase.other ""; eligible_actor_ids = [] };
  pending = none;
  target_effect = none;
  run_away = none;
  theft_used = false;
}

-- `Encounter{MonsterInstanceID: id}`.
abbrev pub new_encounter : String → Encounter
new_encounter id = record {
  monster_instance_id = id;
  additional_monster_instance_ids = [];
  combat_effects = [];
  player_combat_modifier = pos 0;
  monster_combat_modifier = pos 0;
  escape_modifier = pos 0;
  treasure_reward_modifier = pos 0;
  combat_closed = false;
  combat_help = none;
}

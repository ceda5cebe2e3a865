-- ===== src/Commands/Lobby.antt =====
-- The lobby, backend/game/internal/game/engine.go.
use munchkin.Shared.{
  List, Result, String, String-Eq, [], any, fail_when, false, is_some, leb_ℤ, length, ltb_ℤ, ok,
  pos, signed_length, suc, zero, ℕ, ℕ-Eq, ℤ-Eq, ◌!=◌, ◌++◌, ◌==◌, ◌>>=◌, ◌>>◌, ◌||◌, ◌∷◌,
}
use munchkin.Shared.{illegal_command}
use munchkin.Cards.Piles.{RandomOutcome, shuffled_outcome}
use munchkin.Commands.Dealing.{Deal, starting_deal}
use munchkin.Commands.Guards.{new_turn, transition}
use munchkin.Commands.Kinds.{Command, EventType, StateChanged}
use munchkin.Content.{DeckKind, DeckKind-Eq, Pack}
use munchkin.Effects.Immediate.{take_signed}
use munchkin.Effects.Queue.{set_turn_phase}
use munchkin.Model.{Phase, Phase-Eq, Player, State, Status, Status-Eq, player_index}
use munchkin.Profile.{RulesProfile, RulesProfile-Eq, profile}
use munchkin.Rng.{shuffle}
use munchkin.Rules.Character.{player_at}
use munchkin.Rules.Loadout.{set_player}

-- The player that joins; the other fields are Go's zero values.
abbrev pub new_player : String → String → String → Player
new_player id name hash = record {
  id = id;
  name = name;
  level = pos 1;
  character_tags = [];
  suppressed_tags = [];
  hand = [];
  carried = [];
  equipped = [];
  traits = [];
  attachments = [];
  persistent_curses = [];
  cheat_targets = [];
  setup_done = false;
  setup_discard_pending = false;
  dead = false;
  needs_redraw = false;
  credential_hash = hash;
}

-- `handleJoin`; `trim` is `strings.TrimSpace`.
unfoldable pub handle_join : (String → String) → State → Command → Result StateChanged
handle_join trim s c = do
  r ← profile s
  fail_when (s.status != Status.lobby || leb_ℤ r.max_players (signed_length s.players))
      illegal_command
  fail_when (c.player_id == "" || (trim c.display_name == "" || c.credential_hash == ""))
      illegal_command
  fail_when (is_some (player_index s c.player_id)) illegal_command
  fail_when (any (λ p. p.credential_hash == c.credential_hash) s.players) illegal_command
  transition EventType.player_joined c
      (record s {
        players = s.players ++ new_player c.player_id (trim c.display_name) c.credential_hash ∷ [];
      })
      []

-- The first hand of a player.
unfoldable pub deal_hand :
    RulesProfile → State → ℕ → List RandomOutcome → Result (State × List RandomOutcome)
deal_hand r s i outcomes = do
  doors ← take_signed s DeckKind.door r.initial_door_cards outcomes
  treasures ← take_signed doors.state DeckKind.treasure r.initial_treasure_cards doors.outcomes
  p ← player_at treasures.state i
  ok (
    set_player treasures.state i
        (record p { hand = doors.result ++ treasures.result; setup_done = false }),
    treasures.outcomes,
  )

-- The loop over the players, from an index on.
unfoldable pub deal_hands :
    RulesProfile → State → ℕ → ℕ → List RandomOutcome → Result (State × List RandomOutcome)
deal_hands r s i zero outcomes = ok (s, outcomes)
deal_hands r s i (suc left) outcomes = do
  dealt ← deal_hand r s i outcomes
  deal_hands r dealt.0 (suc i) left dealt.1

-- The state with the shuffled decks, and the outcomes.
abbrev pub shuffled_state : State → Deal → State × List RandomOutcome
shuffled_state s d =
    let (doors, rng) = shuffle d.doors s.rng_state in
    let (treasures, rng') = shuffle d.treasures rng in
    (
      record s {
        status = Status.active;
        instances = d.instances;
        door_deck = doors;
        treasure_deck = treasures;
        rng_state = rng';
      },
      shuffled_outcome DeckKind.door doors ∷ shuffled_outcome DeckKind.treasure treasures ∷ [],
    )

-- `handleStart`.
unfoldable pub handle_start : (ℕ → String) → State → Command → Pack → Result StateChanged
handle_start itoa s c pack = do
  r ← profile s
  fail_when (s.status != Status.lobby || c.actor_id != s.owner_player_id) illegal_command
  fail_when (ltb_ℤ (signed_length s.players) r.min_players) illegal_command
  d ← starting_deal itoa pack r
  dealt ← deal_hands r (shuffled_state s d).0 0 (length s.players) (shuffled_state s d).1
  first ← player_at dealt.0 0
  transition EventType.game_started c
      (set_turn_phase (record dealt.0 { turn = new_turn first.id 0 }) Phase.setup) dealt.1

-- ===== src/Commands/Turns.antt =====
-- The commands of a turn, backend/game/internal/game/engine.go.
pub mod Rooms
pub mod Passing
use munchkin.Shared.{
  List, Option, Result, String, String-Eq, [], all, contains, elem_at, fail_when, false, get_elem?,
  if◌then◌else◌, length, none, not, ok, or_fail, signed_length, some, suc, ℕ, ℕ-Eq, ℤ-Eq, ◌!=◌, ◌%◌,
  ◌&&◌, ◌++◌, ◌+ℤ◌, ◌>>=◌, ◌>>◌, ◌^◌, ◌||◌, ◌∷◌,
}
use munchkin.Shared.{illegal_command, panic, unknown_card}
use munchkin.Cards.{remove_string, unique_strings}
use munchkin.Cards.Piles.{RandomOutcome, take_cards}
use munchkin.Commands.Dealing.{targetable_effect_card}
use munchkin.Commands.Guards.{new_encounter, new_turn, require_phase, transition}
use munchkin.Commands.Kinds.{Command, EventType, StateChanged}
use munchkin.Content.{
  Ability, AbilityKind, AbilityKind-Eq, Card, CardKind, CardKind-Eq, DeckKind, DeckKind-Eq, Pack,
}
use munchkin.Effects.Immediate.{take_signed, undrawn, with_encounter}
use munchkin.Effects.Queue.{no_finalize, set_turn_phase}
use munchkin.Effects.Sequences.{begin_effect_sequence, effects_persist}
use munchkin.Interaction.Deadlines.Steps.{paid}
use munchkin.Model.{DeathLoot, PendingFinalize, Phase, Phase-Eq, State, Status-Eq}
use munchkin.Profile.{profile}
use munchkin.Rules.Character.{card_of, encounter_of, player_at}
use munchkin.Rules.Discarding.{discard_owned_all}
use munchkin.Rules.Loadout.{set_player}

-- The card behind a door, taken from the resolving cards into the hand.
abbrev pub into_hand : State → ℕ → String → Result State
into_hand s i card = do
  p ← player_at s i
  ok (set_player s i (record p { hand = p.hand ++ card ∷ [] }))

abbrev pub resolved : State → String → State
resolved s card = record s {
  turn = record s.turn { resolving = (remove_string s.turn.resolving card).0 };
}

abbrev pub curse_finalize : Card → String → PendingFinalize
curse_finalize card id = record no_finalize {
  phase = Phase.door_choice;
  discard_source = not (effects_persist card.effects);
  source_instance_id = id;
}

-- A curse behind the door: kept, where it may be aimed at others, or suffered at once.
unfoldable pub open_curse :
    State → ℕ → String → Card → Pack → List RandomOutcome → Result (State × List RandomOutcome)
open_curse s i id card pack outcomes = do
  r ← profile s
  if r.target_and_run_away && targetable_effect_card card
      then undrawn outcomes
          (into_hand (resolved s id) i id >>= λ s'. ok (set_turn_phase s' Phase.door_choice))
      else begin_effect_sequence s i id card.effects (curse_finalize card id) pack outcomes

-- The `switch` over the kind of the card.
unfoldable pub open_card :
    CardKind
    → State
    → ℕ
    → String
    → Card
    → Pack
    → List RandomOutcome
    → Result (State × List RandomOutcome)
open_card CardKind.monster s i id card pack outcomes =
    ok (set_turn_phase (with_encounter (resolved s id) (new_encounter id)) Phase.combat, outcomes)
open_card CardKind.curse s i id card pack outcomes = open_curse s i id card pack outcomes
open_card _ s i id card pack outcomes =
    undrawn outcomes
      (into_hand (resolved s id) i id >>= λ s'. ok (set_turn_phase s' Phase.door_choice))

-- `handleOpenDoor`.
unfoldable pub handle_open_door : State → Command → Pack → Result StateChanged
handle_open_door s c pack = do
  i ← require_phase s c (Phase.preparation ∷ [])
  drawn ← take_cards s DeckKind.door 1 []
  id ← or_fail (get_elem? drawn.result 0) panic
  card ← card_of pack drawn.state id unknown_card
  opened ←
      open_card card.kind
        (record drawn.state {
          turn = record drawn.state.turn { resolving = drawn.state.turn.resolving ++ id ∷ [] };
        })
        i id card pack drawn.outcomes
  transition EventType.door_opened c opened.0 opened.1

-- `handleLookForTrouble`.
unfoldable pub handle_look_for_trouble : State → Command → Pack → Result StateChanged
handle_look_for_trouble s c pack = do
  i ← require_phase s c (Phase.door_choice ∷ [])
  p ← player_at s i
  fail_when (not (contains p.hand c.instance_id)) illegal_command
  card ← card_of pack s c.instance_id illegal_command
  monster ← or_fail card.monster illegal_command
  transition EventType.trouble_sought c
      (set_turn_phase
        (with_encounter
          (set_player s i (record p { hand = (remove_string p.hand c.instance_id).0 }))
          (new_encounter c.instance_id))
        Phase.combat)
      []

-- `handleLootRoom`.
unfoldable pub handle_loot_room : State → Command → Result StateChanged
handle_loot_room s c = do
  i ← require_phase s c (Phase.door_choice ∷ [])
  drawn ← take_cards s DeckKind.door 1 []
  id ← or_fail (get_elem? drawn.result 0) panic
  next ← into_hand drawn.state i id
  transition EventType.room_looted c (set_turn_phase next Phase.charity) drawn.outcomes

-- The ability that a command names, or an error.
unfoldable pub paid_ability : Card → Command → Result Ability
paid_ability card c = do
  a ← or_fail (elem_at card.abilities c.ability_index) illegal_command
  fail_when
      (a.kind != AbilityKind.discard_for_combat
        || (signed_length c.instance_ids != a.discard_count || not (unique_strings c.instance_ids)))
      illegal_command
  ok a

-- `handleUseAbility`.
unfoldable pub handle_use_ability : State → Command → Pack → Result StateChanged
handle_use_ability s c pack = do
  i ← require_phase s c (Phase.combat ∷ [])
  e ← or_fail s.turn.encounter illegal_command
  fail_when e.combat_closed illegal_command
  p ← player_at s i
  fail_when (not (contains p.traits c.instance_id) && not (contains p.equipped c.instance_id))
      illegal_command
  card ← card_of pack s c.instance_id illegal_command
  a ← paid_ability card c
  fail_when (not (all (contains p.hand) c.instance_ids)) illegal_command
  paid ← discard_owned_all s i c.instance_ids pack
  e' ← encounter_of paid
  transition EventType.combat_action c
      (with_encounter paid
        (record e' { player_combat_modifier = e'.player_combat_modifier +ℤ a.amount }))
      []

-- The new hand of a player who was dead.
unfoldable pub redraw : State → ℕ → Result (State × List RandomOutcome)
redraw s i = do
  p ← player_at s i
  if not p.needs_redraw then ok (s, []) else (do
    r ← profile s
    doors ← take_signed s DeckKind.door r.initial_door_cards []
    treasures ← take_signed doors.state DeckKind.treasure r.initial_treasure_cards doors.outcomes
    q ← player_at treasures.state i
    ok (
      set_player treasures.state i (record q {
        hand = doors.result ++ treasures.result;
        needs_redraw = false;
        dead = false;
      }),
      treasures.outcomes,
    ))

abbrev pub unfinished_loot : Option DeathLoot → Option DeathLoot
unfinished_loot none = none
unfinished_loot (some l) = if l.completed then none else some l

-- The state of the next turn before the redraw. The number is a uint32.
abbrev pub next_turn_state : State → String → State
next_turn_state s player_id = record s {
  recent_combat_result = none;
  death_loot = unfinished_loot s.death_loot;
  charity_transfer = none;
  turn = new_turn player_id (suc s.turn.number % 2 ^ 32);
}

-- `handleEndTurn`.
unfoldable pub handle_end_turn : State → Command → Result StateChanged
handle_end_turn s c = do
  i ← require_phase s c (Phase.end_turn ∷ [])
  p ← player_at s (suc i % length s.players)
  drawn ← redraw (next_turn_state s p.id) (suc i % length s.players)
  transition EventType.turn_advanced c (set_turn_phase drawn.0 Phase.preparation) drawn.1

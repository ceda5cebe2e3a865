-- ===== src/Commands/Preparing.antt =====
-- The end of the setup, backend/game/internal/game/engine.go.
pub mod Order
use munchkin.Shared.{
  List, Option, Result, String, String-Eq, [], fail_when, false, get_elem?, if◌then◌else◌, length,
  ltb_ℤ, none, signed_length, some, suc, true, zero, ℕ, ℕ-Eq, ◌%◌, ◌&&◌, ◌+◌, ◌>>=◌, ◌>>◌, ◌∷◌,
}
use munchkin.Shared.{illegal_command}
use munchkin.Commands.Guards.{new_turn, require_phase, transition}
use munchkin.Commands.Kinds.{Command, EventType, StateChanged}
use munchkin.Content.{Pack}
use munchkin.Effects.Queue.{set_turn_phase}
use munchkin.Model.{Phase, Phase-Eq, Player, State}
use munchkin.Profile.{profile}
use munchkin.Rules.Character.{hand_limit, player_at}
use munchkin.Rules.Loadout.{set_player}

-- The next player around the table who is not done, from an offset on.
unfoldable pub next_to_set_up : List Player → ℕ → ℕ → ℕ → Option String
next_to_set_up players i offset zero = none
next_to_set_up players i offset (suc left) =
    let later = next_to_set_up players i (suc offset) left in
    elim (get_elem? players ((i + offset) % length players)) [
      | none ↦ later
      | some p ↦ if p.setup_done then later else some p.id
    ]

abbrev pub ready : Player → Player
ready p = record p { setup_done = true; setup_discard_pending = false }

-- The turn goes to the next player, or to the first where all are ready.
unfoldable pub pass_setup : State → ℕ → String → State
pass_setup s i first = elim (next_to_set_up s.players i 1 (length s.players)) [
  | some id ↦ set_turn_phase (record s { turn = new_turn id 0 }) Phase.setup
  | none ↦ set_turn_phase (record s { turn = new_turn first 1 }) Phase.preparation
]

-- `finishSetupForPlayer`.
unfoldable pub finish_setup_for_player : State → Command → ℕ → Result StateChanged
finish_setup_for_player s c i = do
  p ← player_at s i
  first ← player_at (set_player s i (ready p)) 0
  transition EventType.setup_finished c (pass_setup (set_player s i (ready p)) i first.id) []

-- `handleFinishSetup`.
unfoldable pub handle_finish_setup : State → Command → Pack → Result StateChanged
handle_finish_setup s c pack = do
  i ← require_phase s c (Phase.setup ∷ [])
  p ← player_at s i
  fail_when p.setup_discard_pending illegal_command
  limit ← hand_limit s i pack
  r ← profile s
  if r.death_loot && ltb_ℤ limit (signed_length p.hand)
      then transition EventType.setup_discard_required c
          (set_player s i (record p { setup_discard_pending = true })) []
      else finish_setup_for_player s c i

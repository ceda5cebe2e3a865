-- ===== src/Commands/Equipment.antt =====
-- Equipping and discarding, backend/game/internal/game/engine.go.
pub mod Legality
use munchkin.Shared.{
  Check, List, Result, String, String-Eq, [], contains, done, fail_when, ltb_ℤ, none, not, pos,
  some, ℕ-Eq, ℤ-Eq, ◌!=◌, ◌&&◌, ◌++◌, ◌-ℤ◌, ◌>>=◌, ◌>>◌, ◌∷◌,
}
use munchkin.Shared.{illegal_command, invalid_content, unknown_card}
use munchkin.Cards.{remove_string}
use munchkin.Commands.Guards.{reconcile_strictly, require_phase, transition}
use munchkin.Commands.Kinds.{Command, EventType, StateChanged}
use munchkin.Content.{Card, CardKind, CardKind-Eq, Pack}
use munchkin.Model.{Phase, Phase-Eq, Player, State, Status-Eq}
use munchkin.Rules.Character.{card_of, player_at, trait_capacity, trait_count}
use munchkin.Rules.Discarding.{discard_owned_instance}
use munchkin.Rules.Loadout.{can_equip, item_of, set_player}

abbrev pub equipment_phases : List Phase
equipment_phases = Phase.setup ∷ Phase.preparation ∷ Phase.charity ∷ []

-- The player with an item put on, or taken off.
abbrev pub put_on : Player → String → Player
put_on p i = record p {
  hand = (remove_string p.hand i).0;
  carried = (remove_string p.carried i).0;
  equipped = p.equipped ++ i ∷ [];
}

abbrev pub take_off : Player → String → Player
take_off p i = record p { equipped = (remove_string p.equipped i).0; carried = p.carried ++ i ∷ [] }

-- `handleEquipItem`.
unfoldable pub handle_equip_item : State → Command → Pack → Result StateChanged
handle_equip_item s c pack = do
  i ← require_phase s c equipment_phases
  can_equip s i c.instance_id pack
  p ← player_at s i
  next ← reconcile_strictly (set_player s i (put_on p c.instance_id)) i pack
  transition EventType.equipment_changed c next []

-- `handleUnequipItem`.
unfoldable pub handle_unequip_item : State → Command → Pack → Result StateChanged
handle_unequip_item s c pack = do
  i ← require_phase s c equipment_phases
  p ← player_at s i
  fail_when (not (contains p.equipped c.instance_id)) illegal_command
  item ← item_of pack s c.instance_id invalid_content
  next ← reconcile_strictly (set_player s i (take_off p c.instance_id)) i pack
  transition EventType.equipment_changed c next []

-- An attachment may not leave more traits behind than are allowed without it.
unfoldable pub check_detachable : State → Player → Card → Pack → Check
check_detachable s p card pack = elim card.attachment [
  | none ↦ done
  | some a ↦ do
    n ← trait_count s p a.group pack
    capacity ← trait_capacity s p a.group pack
    fail_when (ltb_ℤ (capacity -ℤ a.extra_traits) (pos n)) illegal_command
]

-- `handleDiscardCard`.
unfoldable pub handle_discard_card : State → Command → Pack → Result StateChanged
handle_discard_card s c pack = do
  i ← require_phase s c (Phase.setup ∷ Phase.preparation ∷ Phase.combat ∷ Phase.charity ∷ [])
  p ← player_at s i
  card ← card_of pack s c.instance_id unknown_card
  fail_when (not (contains p.traits c.instance_id) && not (contains p.attachments c.instance_id))
      illegal_command
  fail_when
      (card.kind != CardKind.class
        && (card.kind != CardKind.race && card.kind != CardKind.trait_attachment))
      illegal_command
  check_detachable s p card pack
  shed ← discard_owned_instance s i c.instance_id pack
  next ← reconcile_strictly shed i pack
  transition EventType.card_played c next []

-- ===== src/Rules/Discarding.antt =====
-- Discarding an owned card with its cheats, backend/game/internal/game/rules.go.
pub mod Ownership
pub mod Cheated
pub mod Rounds
pub mod Refused
use munchkin.Shared.{
  Bool, List, Result, String, String-Eq, [], any, contains, delete, fail_when, false, if◌then◌else◌,
  leb_ℤ, not, ok, pos, true, ℕ, ℕ-Eq, ℤ, ℤ-Eq, ◌&&◌, ◌++◌, ◌+ℤ◌, ◌==◌, ◌>>=◌, ◌>>◌, ◌||◌, ◌∷◌,
}
use munchkin.Shared.{illegal_command, invalid_content}
use munchkin.Cards.{append_unique, remove_string}
use munchkin.Cards.Piles.{append_discard}
use munchkin.Cards.Transfers.{is_cheated}
use munchkin.Content.{ItemSlot, ItemSlot-Eq, Pack}
use munchkin.Model.{Phase-Eq, Player, State, Status-Eq, all_owned_zones}
use munchkin.Rules.Character.{item_restrictions_satisfied, player_at}
use munchkin.Rules.Loadout.{hands_of, item_of, set_player}

-- `removeOwnedInstance`: the player, and whether one of the removals found the card.
unfoldable pub remove_owned_instance : Player → String → Player × Bool
remove_owned_instance p i = (
  record p {
    hand = (remove_string p.hand i).0;
    carried = (remove_string p.carried i).0;
    equipped = (remove_string p.equipped i).0;
    traits = (remove_string p.traits i).0;
    attachments = (remove_string p.attachments i).0;
    persistent_curses = (remove_string p.persistent_curses i).0;
  },
  (remove_string p.hand i).1
      || ((remove_string p.carried i).1
          || ((remove_string p.equipped i).1
              || ((remove_string p.traits i).1
                  || ((remove_string p.attachments i).1
                      || (remove_string p.persistent_curses i).1)))),
)

unfoldable pub owns_instance : Player → String → Bool
owns_instance p i = any (λ zone. contains zone i) (all_owned_zones p)

-- The hands that the equipped items use, the cheated ones aside.
unfoldable pub equipped_hands : State → Player → Pack → List String → Result ℤ
equipped_hands s p pack [] = ok (pos 0)
equipped_hands s p pack (i ∷ is) = do
  item ← item_of pack s i invalid_content
  rest ← equipped_hands s p pack is
  ok (if is_cheated p i then rest else hands_of item +ℤ rest)

-- Whether no other equipped item takes the slot. The loop returns at the first that does.
unfoldable pub slot_free : State → Player → Pack → ItemSlot → String → List String → Result Bool
slot_free s p pack slot instance_id [] = ok true
slot_free s p pack slot instance_id (i ∷ is) =
    let rest = slot_free s p pack slot instance_id is in
    if i == instance_id || is_cheated p i
    then rest
    else (item_of pack s i invalid_content >>= λ item. if item.slot == slot then ok false else rest)

-- `equippedItemRemainsLegal`, on the player that the state holds.
unfoldable pub equipped_item_remains_legal : State → Player → Pack → String → Result Bool
unfolding equipped_hands slot_free
equipped_item_remains_legal s p pack instance_id =
    if is_cheated p instance_id
    then ok true
    else (item_of pack s instance_id illegal_command >>= λ item.
        item_restrictions_satisfied s p item pack >>= λ allowed.
        if not allowed
        then ok false
        else if item.slot == ItemSlot.hands
        then (equipped_hands s p pack p.equipped >>= λ used. ok (leb_ℤ used (pos 2)))
        else if item.slot == ItemSlot.slotless
        then ok true
        else slot_free s p pack item.slot instance_id p.equipped)

-- An item that loses its cheat is taken off, unless it may stay on without it.
unfoldable pub uncheat : State → Pack → Player → String → Result Player
uncheat s pack p target = do
  legal ← equipped_item_remains_legal s p pack target
  ok (
      if contains p.equipped target && not legal
      then record p {
        equipped = (remove_string p.equipped target).0;
        carried = append_unique p.carried target;
      }
      else p)

-- One round of the loop over the cheats, with the player and the cheats on the discarded card.
unfoldable pub discard_round :
    State → Pack → String → Player × List String → String × String → Result (Player × List String)
discard_round s pack instance_id (p, attached) (attachment, target) =
    if attachment == instance_id
    then (uncheat s pack (record p { cheat_targets = delete attachment p.cheat_targets }) target
        >>= λ p'. ok (p', attached))
    else if target == instance_id
    then ok (
      record p { cheat_targets = delete attachment p.cheat_targets },
      attached ++ attachment ∷ [],
    )
    else ok (p, attached)

-- The loop over the entries that the map had before. Go leaves their order open: here it is that of
-- the association list.
unfoldable pub discard_rounds :
    State
    → Pack
    → String
    → Player × List String
    → List (String × String)
    → Result (Player × List String)
discard_rounds s pack instance_id c [] = ok c
discard_rounds s pack instance_id c (entry ∷ entries) = do
  c' ← discard_round s pack instance_id c entry
  discard_rounds s pack instance_id c' entries

-- The cheats that lay on the discarded card.
unfoldable pub discard_cheats : Pack → State × Player → List String → Result (State × Player)
discard_cheats pack c [] = ok c
discard_cheats pack (s, p) (i ∷ is) = do
  fail_when (not (remove_owned_instance p i).1) illegal_command
  s' ← append_discard s i pack
  discard_cheats pack (s', (remove_owned_instance p i).0) is

-- `discardOwnedInstance`. The player is written back at the end: what comes between reads only
-- the instances of the state.
unfoldable pub discard_owned_instance : State → ℕ → String → Pack → Result State
discard_owned_instance s i instance_id pack = do
  p ← player_at s i
  fail_when (not (remove_owned_instance p instance_id).1) illegal_command
  c ←
      discard_rounds s pack instance_id ((remove_owned_instance p instance_id).0, [])
        p.cheat_targets
  s' ← append_discard s instance_id pack
  last ← discard_cheats pack (s', c.0) c.1
  ok (set_player last.0 i last.1)

-- A loop over the cards to discard.
unfoldable pub discard_owned_all : State → ℕ → List String → Pack → Result State
discard_owned_all s i [] pack = ok s
discard_owned_all s i (x ∷ xs) pack = do
  s' ← discard_owned_instance s i x pack
  discard_owned_all s' i xs pack

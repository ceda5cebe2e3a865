-- ===== src/Cards/Transfers.antt =====
-- Carried cards that change hands, backend/game/internal/game/rules.go.
pub mod Conservation
use munchkin.Shared.{
  ℕ, ℕ-Eq, ℤ, pos, negsuc, String, String-Eq, Bool, true, false, not, ◌||◌, ◌==◌, if◌then◌else◌,
  List, [], ◌∷◌, ◌++◌, Option, none, some, any, each, contains, is_empty, is_none, get_elem?, set,
  Result, Check, ok, err, done, fail_when, or_fail, ◌>>=◌, ◌>>◌,
}
use munchkin.Shared.{illegal_command, invalid_content, panic}
use munchkin.Content.{Pack, Card}
use munchkin.Model.{State, Player, CardInstance, definition_for_instance}
use munchkin.Cards.Slices.{remove_string, unique_strings}

unfoldable pub is_cheated : Player → String → Bool
is_cheated p item_id = any (λ entry. entry.1 == item_id) p.cheat_targets

-- Whether an instance is known and its card is an item.
abbrev pub is_item : Option (Card × CardInstance) → Bool
is_item none = false
is_item (some (card, _)) = not (is_none card.item)

transferable_from : State → Player → Pack → List String → Result (List String)
transferable_from s p pack [] = ok []
transferable_from s p pack (i ∷ is) = do
  fail_when (not (is_item (definition_for_instance pack s i))) invalid_content
  rest ← transferable_from s p pack is
  ok (if is_cheated p i then rest else i ∷ rest)

-- `transferableCarriedInstances`.
unfoldable pub transferable_carried_instances : State → ℕ → Pack → Result (List String)
unfolding transferable_from
transferable_carried_instances s player_index_ pack = elim (get_elem? s.players player_index_) [
  | none ↦ err panic
  | some p ↦ transferable_from s p pack p.carried
]

-- The check of one card in the first loop.
unfoldable pub check_transferable : State → Player → Pack → String → Check
check_transferable s from pack i =
    fail_when
      (not (is_item (definition_for_instance pack s i))
        || (not (contains from.carried i) || is_cheated from i))
      illegal_command

-- One round of the second loop; Go panics at an index that does not exist.
unfoldable pub move_one : List Player → ℕ → ℕ → String → Result (List Player)
move_one players from to i = do
  giver ← or_fail (get_elem? players from) panic
  taker ←
      or_fail
        (get_elem? (set players from (record giver { carried = (remove_string giver.carried i).0 }))
          to)
        panic
  ok (
      set (set players from (record giver { carried = (remove_string giver.carried i).0 })) to
        (record taker { carried = taker.carried ++ i ∷ [] }))

unfoldable pub move_all : List Player → ℕ → ℕ → List String → Result (List Player)
move_all players from to [] = ok players
move_all players from to (i ∷ is) = do
  players' ← move_one players from to i
  move_all players' from to is

-- `transferCarriedInstances`.
unfoldable pub transfer_carried_instances : State → ℤ → ℤ → List String → Pack → Result State
transfer_carried_instances s (negsuc _) to ids pack = err illegal_command
transfer_carried_instances s (pos from) (negsuc _) ids pack = err illegal_command
transfer_carried_instances s (pos from) (pos to) ids pack = do
  fail_when (from == to || (is_empty ids || not (unique_strings ids))) illegal_command
  giver ← or_fail (get_elem? s.players from) panic
  each (check_transferable s giver pack) ids
  players ← move_all s.players from to ids
  ok (record s { players = players })

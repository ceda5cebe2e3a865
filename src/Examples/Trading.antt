-- ===== src/Examples/Trading.antt =====
-- A transfer of two carried cards at a concrete table.
use munchkin.Shared.{
  String, String-discrete, ℕ_discrete, pos, List, [], ◌∷◌, ok, any, each, contains, lookup, ◌≡◌,
  refl,
}
use munchkin.Content.{card_by_id}
use munchkin.Model.{State, Player, definition_for_instance}
use munchkin.Cards.{remove_string, unique_strings}
use munchkin.Cards.Transfers.{
  is_cheated, check_transferable, move_one, move_all, transfer_carried_instances,
}
use munchkin.Cards.Transfers.Conservation.{Transferred, transfer_carried_instances-Transferred}
use munchkin.Examples.Packs.{hat_pack}
use munchkin.Examples.Table.{table, player}

abbrev carrying : String → List String → Player
carrying id carried = record (player id []) { carried = carried }

abbrev market : State
market = record table {
  players = carrying "ann" ("t1" ∷ "t2" ∷ "d3" ∷ []) ∷ carrying "bob" ("m1" ∷ []) ∷ [];
}

abbrev sold : State
sold = record market {
  players = carrying "ann" ("t2" ∷ []) ∷ carrying "bob" ("m1" ∷ "d3" ∷ "t1" ∷ []) ∷ [];
}

sells : transfer_carried_instances market (pos 0) (pos 1) ("d3" ∷ "t1" ∷ []) hat_pack ≡ ok sold
unfolding transfer_carried_instances check_transferable is_cheated move_one move_all remove_string
    unique_strings definition_for_instance card_by_id any each contains lookup String-discrete
    ℕ_discrete
sells = refl

transfer_carried_instances-Transferred_example : Transferred market sold 0 ("d3" ∷ "t1" ∷ [])
transfer_carried_instances-Transferred_example =
    transfer_carried_instances-Transferred market 0 (pos 1) ("d3" ∷ "t1" ∷ []) hat_pack sells

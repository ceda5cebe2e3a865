-- ===== src/Examples/Drawing.antt =====
-- Draws, shuffles and zones at a concrete table.
use munchkin.Shared.{
  ◌+◌, ◌*◌, ◌-◌, ◌%◌, String, List, [], ◌∷◌, ok, err, done, length, ◌≡◌, ◌↔◌, arith, SameItems,
  String-Eq,
}
use munchkin.Shared.{illegal_command}
use munchkin.Content.{DeckKind}
use munchkin.Rng.{shuffle, gamma, word}
use munchkin.Rng.Shuffle.{shuffle-SameItems, shuffle-state}
use munchkin.Cards.Piles.{Draw, take_cards}
use munchkin.Cards.Draws.{Drawn, take_cards-Drawn, take_cards-err}
use munchkin.Validation.Zones.{validate_instance_zones}
use munchkin.Validation.Zones.Exactness.{EachInOneZone, validate_instance_zones_iff}
use munchkin.Examples.Table.{table}

abbrev three : List String
three = "d1" ∷ "d2" ∷ "d4" ∷ []

shuffle-SameItems_example : SameItems (shuffle three 42).0 three
shuffle-SameItems_example = shuffle-SameItems three 42

shuffle-state_example : (shuffle three 42).1 ≡ (42 + (length three - 1) * gamma) % word
shuffle-state_example = shuffle-state three 42 (omega arith)

-- Two doors: one from the pile, one from the discard pile that is shuffled for it.
take_cards-Drawn_example :
    let d : Draw = record { result = []; state = table; outcomes = [] } in
    (d' : Draw) × (take_cards table DeckKind.door 2 [] ≡ ok d') × Drawn DeckKind.door 2 d d'
take_cards-Drawn_example = take_cards-Drawn table DeckKind.door 2 [] tt (omega arith)

-- One treasure is in the pile and none in the discard pile.
take_cards-err_example : take_cards table DeckKind.treasure 2 [] ≡ err illegal_command
take_cards-err_example = take_cards-err table DeckKind.treasure 2 [] tt (omega arith)

validate_instance_zones_iff_example : (validate_instance_zones table ≡ done) ↔ EachInOneZone table
validate_instance_zones_iff_example = validate_instance_zones_iff table

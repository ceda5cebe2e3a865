-- ===== src/Validation/Zones.antt =====
-- The zones that card instances lie in, backend/game/internal/game/model.go.
pub mod Exactness
use munchkin.Shared.{
  ℕ, ℕ-Eq, String, String-Eq, Bool, true, false, not, ◌&&◌, ◌!=◌, List, [], ◌∷◌, ◌++◌, Option, none,
  some, Map, has_key, lookup, keys, is_empty, contains, any, length, Result, ok, err, Check,
  fail_when, ◌>>◌, ◌>>=◌,
}
use munchkin.Shared.{illegal_command}
use munchkin.Model.{
  State, Player, CardInstance, DeathLoot, Encounter, all_owned_zones,
  encounter_monster_instance_ids,
}

-- `add`: the owners are the instances that a zone has claimed.
unfoldable pub add_zone : Map CardInstance → List String → List String → Result (List String)
add_zone instances owners [] = ok owners
add_zone instances owners (i ∷ is) =
    let rest = add_zone instances (i ∷ owners) is in
    do
      fail_when (not (has_key i instances)) illegal_command
      fail_when (contains owners i) illegal_command
      rest

unfoldable pub add_zones :
    Map CardInstance → List String → List (List String) → Result (List String)
add_zones instances owners [] = ok owners
add_zones instances owners (z ∷ zs) = do
  owners' ← add_zone instances owners z
  add_zones instances owners' zs

-- The zones of the players, six for each.
unfoldable pub player_zones : List Player → List (List String)
unfolding all_owned_zones
player_zones [] = []
player_zones (p ∷ ps) = all_owned_zones p ++ player_zones ps

abbrev pub encounter_zone : Option Encounter → List (List String)
encounter_zone none = []
encounter_zone (some e) = encounter_monster_instance_ids e ∷ []

abbrev pub loot_zone : Option DeathLoot → List (List String)
loot_zone none = []
loot_zone (some l) = l.pool ∷ []

-- All zones, in the order in which the source adds them.
unfoldable pub zones : State → List (List String)
unfolding player_zones
zones s =
    s.door_deck
    ∷ s.treasure_deck
    ∷ s.door_discard
    ∷ s.treasure_discard
    ∷ s.turn.resolving
    ∷ (encounter_zone s.turn.encounter ++ (loot_zone s.death_loot ++ player_zones s.players))

-- `State.validateInstanceZones`.
unfoldable pub validate_instance_zones : State → Check
validate_instance_zones s = do
  fail_when (is_empty s.instances) illegal_command
  owners ← add_zones s.instances [] (zones s)
  fail_when
      (length owners != length s.instances && any (λ k. not (contains owners k)) (keys s.instances))
      illegal_command

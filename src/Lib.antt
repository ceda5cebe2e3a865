-- ===== src/Lib.antt =====
-- The game server of munchkin, backend/game/internal/game: the state of a game with its
-- validation, the draw and discard piles, and the interaction windows in which players answer.
--
-- A command of a player is checked against the state and turned into events; `Apply` replays an
-- event on a state, raises the version and validates the state as a whole. A step that waits for
-- answers opens an interaction window with a deadline, and each answer is one event.
--
-- Shared: errors as values, lists over the native numbers, integers, maps as association lists,
--   counting of list items, instants. Used by all other modules.
-- Rng: `nextRandom`, `shuffle` and `rollD6` of rng.go.
-- Content, Model: the types of content.go and model.go, one record for each struct and one data
--   type for each string enum, with a constructor `other` for any other string.
-- Profile: the rules profiles of model.go.
-- Validation: `State.Validate` of model.go. Each sub-validator `validateX` is `validate_x` in the
--   module that is named for its part: Windows, Responses, Deadlines, Help, Encounters, Flights
--   and FlightWindows (`validateTargetAndRunAway`), Trades, Loot, Zones and Players.
-- Cards: Slices and Piles hold the slice helpers, `takeCards` and the discards of rules.go, and
--   Transfers the transfer of carried cards.
-- Interaction: Deadlines, Windows and HelpWindow hold the deadline arithmetic and the builders of
--   windows of rules.go, Events the cases of `Apply` of event.go that concern a window, and
--   Recording the handlers of engine.go that open a window and record a response.
-- DeathLoot: `handleDeathLootPriority` of engine.go, by which the living players take the cards of
--   a dead one in turn, with the order of seats of rules.go. The handler returns the new state and
--   the outcomes that its event carries.
-- Rules: Character, Combat, Loadout and Discarding hold the tags and limits of a player,
--   `combatTotals`, `reconcileLoadout` with `canEquip`, and `discardOwnedInstance` of rules.go. A
--   conflict that `reconcileLoadout` reports is a value here, since some callers go on with the
--   state that it leaves.
-- Effects: the sequences of effects of effects.go, with Queue for the choice that a conflict
--   leaves, Immediate for `applyImmediateEffect`, Death for `killPlayer` and Flight for
--   `advanceRunAwaySequence`.
-- Commands: the handlers of engine.go for the lobby (Lobby, with the deal in Dealing), the end of
--   the setup (Preparing), Equipment, Selling and the turn (Turns), with their guards in Guards.
--   Events holds `CreateLobby`, `Apply` and `ReplayFrom`. A handler returns its one event.
-- Store: the store in memory of backend/game/internal/repository/memory/store.go. The lock makes
--   each call one step on the records. A callback of `WithinGame` is a tree of calls of the
--   interface `Tx` of backend/game/internal/application/store.go, and `run` carries it out.
--   `reflect.DeepEqual` is a parameter, taken to tell no two different states the same; two
--   association lists that hold the same entries in another order count as different. Due holds
--   `DueInteractions`, whose sort is an insertion sort.
-- Examples: concrete runs.
--
-- A method that mutates its receiver returns the new state, and `Clone` is the identity. An error
-- is the sentinel that the source wraps, without its text, and `panic` stands for a run-time panic
-- at an index out of range; the JSON of an event's payload is left
-- out, so an event carries its payload as a value. An instant is a signed number of nanoseconds
-- from Go's zero time; the saturation of `Time.Sub` at 292 years is left out. An `int` is an
-- unbounded integer; a uint32 or uint64 is a natural number with its wrap-around or overflow check
-- written out. The loops are structural recursions, so no function needs fuel; `takeCards` recurs
-- on the number of cards, and at a negative number Go panics, which has no counterpart.
--
-- `strconv.Itoa` and `strings.TrimSpace` of a joining player are parameters. The maps that the source
-- ranges over without an order, the cheats of a player, are ranged over in the order of their
-- association list.
--
-- Not modelled: the handlers of played cards, combat resolution, charity, help, targets, flight,
-- economy and theft, and the events of interventions and help; the projection of the same package;
-- the application service, the store in Postgres, the transport and telemetry.
pub mod Shared
pub mod Content
pub mod Model
pub mod Profile
pub mod Validation
pub mod Rng
pub mod Cards
pub mod Rules
pub mod Effects
pub mod Commands
pub mod Store
pub mod Interaction
pub mod DeathLoot
pub mod Examples

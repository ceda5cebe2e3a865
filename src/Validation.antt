-- ===== src/Validation.antt =====
-- `State.Validate`, backend/game/internal/game/model.go: what every stored state satisfies.
pub mod Responses
pub mod Deadlines
pub mod Windows
pub mod Help
pub mod Encounters
pub mod Flights
pub mod FlightWindows
pub mod Trades
pub mod Loot
pub mod Zones
pub mod Players

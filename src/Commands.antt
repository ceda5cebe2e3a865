-- ===== src/Commands.antt =====
-- The handlers of commands, backend/game/internal/game/engine.go.
pub mod Kinds
pub mod Guards
pub mod Dealing
pub mod Lobby
pub mod Preparing
pub mod Equipment
pub mod Selling
pub mod Turns
pub mod Events

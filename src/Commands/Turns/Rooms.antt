-- ===== src/Commands/Turns/Rooms.antt =====
-- The cards when a room is looted, backend/game/internal/game/engine.go.
use munchkin.Shared.{String-Eq, ℕ-Eq, ℤ-Eq}
use munchkin.Content.{DeckKind-Eq}
use munchkin.Model.{Phase-Eq, Status-Eq}

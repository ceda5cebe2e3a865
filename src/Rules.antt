-- ===== src/Rules.antt =====
-- What cards and traits make of a player, backend/game/internal/game/rules.go.
pub mod Character
pub mod Combat
pub mod Loadout
pub mod Discarding

-- ===== src/Effects.antt =====
-- The effects of cards, backend/game/internal/game/effects.go.
pub mod Queue
pub mod Death
pub mod Immediate
pub mod Flight
pub mod Sequences

-- ===== src/Content.antt =====
-- Card definitions and content packs, backend/game/internal/game/content.go.
mod Kinds
mod Cards
unfoldable pub use Kinds.*
unfoldable pub use Cards.*

-- ===== src/Cards.antt =====
-- Moving cards between zones, backend/game/internal/game/rules.go.
mod Slices
pub mod Piles
pub mod Transfers
pub mod Tops
pub mod Draws
unfoldable pub use Slices.*

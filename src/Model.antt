-- ===== src/Model.antt =====
-- The state of a game, backend/game/internal/game/model.go.
mod Kinds
mod InteractionKinds
mod Players
mod Interactions
mod Trades
mod Turns
mod States
unfoldable pub use Kinds.*
unfoldable pub use InteractionKinds.*
unfoldable pub use Players.*
unfoldable pub use Interactions.*
unfoldable pub use Trades.*
unfoldable pub use Turns.*
unfoldable pub use States.*

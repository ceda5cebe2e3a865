-- ===== src/Interaction.antt =====
-- Interaction windows: their deadlines, their construction and the responses to them.
pub mod Deadlines
pub mod Windows
pub mod HelpWindow
pub mod Events
pub mod Recording

-- ===== src/Examples.antt =====
-- Concrete runs of the definitions, and the theorems at concrete inputs.
mod Table
mod Packs
mod Drawing
mod Responding
mod Setup
mod Windows
mod Looting
mod Trading
mod Playing
mod Rules
mod Histories
mod Storing

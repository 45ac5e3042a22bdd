-- ===== src/Examples.antt =====
-- Runs of the models, and the theorems at concrete inputs.
mod Display
mod Keyboard
mod Calibration
mod Cards
mod Screen
mod Remote
mod Server
mod Terminals
mod Pictures

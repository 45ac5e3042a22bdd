-- ===== src/Smartcard.antt =====
-- internal/smartcard: card ATRs in observed traffic, and the passive probe.
pub mod Atr
pub mod Probe

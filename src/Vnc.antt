-- ===== src/Vnc.antt =====
-- internal/vnc: the client of a VNC session.
pub mod Keysym
pub mod Scale

-- ===== src/Display.antt =====
-- internal/display: the ALP display channel of one terminal.
pub mod Operation
pub mod Input
pub mod Client
pub mod Resend
pub mod Render
pub mod Packet
pub mod Sequence

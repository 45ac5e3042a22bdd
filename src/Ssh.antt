-- ===== src/Ssh.antt =====
-- internal/sshclient: the terminal emulator of the SSH session.
pub mod Buffer
pub mod Color
pub mod Runes
pub mod Screen
pub mod Terminal
pub mod Keyboard

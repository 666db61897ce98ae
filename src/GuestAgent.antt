-- ===== src/GuestAgent.antt =====
-- pkg/guestagent/guestagent.go: commands and files over the channel of QEMU's guest agent.
pub mod Channel
pub mod Files
pub mod Processes
pub mod Serving

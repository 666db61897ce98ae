-- ===== src/Engine.antt =====
-- internal/engine: the backend that runs labs with Containerlab and Docker. Doctor, which only reads a
-- version, and the helper process of endpoint_helper.go are left out.
pub mod Host
pub mod Identity
pub mod Isolation
pub mod Attachments
pub mod Endpoints
pub mod Labs
pub mod Guests

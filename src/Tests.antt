-- ===== src/Tests.antt =====
-- The handlers and the routines at concrete arguments.
mod Setup
mod Handlers
mod Routines
mod Success
mod Lifetime
mod Handles
mod Changes

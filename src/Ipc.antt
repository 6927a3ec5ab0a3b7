-- ===== src/Ipc.antt =====
-- desktop/ipc/: the channels between the window and the main process.
mod Errors
mod Envelope
mod Context
mod Registry
mod Dispatch
mod Reached
mod Authored
mod Registered
mod Tests

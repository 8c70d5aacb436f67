-- ===== src/Tests.antt =====
-- Concrete inputs for the theorems.
pub mod Samples
pub mod Wire
pub mod Calls
pub mod Replies
pub mod Typed
pub mod Handled
pub mod Sockets
pub mod Programs

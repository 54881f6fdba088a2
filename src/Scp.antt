-- ===== src/Scp.antt =====
-- Package scp: the middleware (scp/scp.go), and one child for each of its parts.
pub mod Info
pub mod Entry
pub mod Stream
pub mod Header
pub mod Receive
pub mod RoundTrip
pub mod FileSystem
pub mod Send
pub mod Memory
pub mod Dispatch
pub mod Readers
pub mod Tests

-- ===== src/Examples.antt =====
-- The example programs, as far as they have logic of their own.
pub mod Sftp
pub mod Copying
pub mod Chat
pub mod GitMenu
pub mod Auth
pub mod Identity
pub mod Shutdown
pub mod Script
pub mod Editor
pub mod Terminal

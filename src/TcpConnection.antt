-- ===== src/TcpConnection.antt =====
-- include/TcpConnection.h and src/TcpConnection.cc: one connection in its loop's thread.
-- Each handler takes the connection and gives it back changed. The loop is the interface of
-- `Loop.antt`; the system calls and the user's callbacks are parameters. Log lines are left out.
mod Base
mod Send
mod Handle
pub mod Invariant
pub mod Sending
pub mod Stream
pub mod Lifecycle
pub mod Events
pub mod Closing
pub mod Echo
pub mod SendFile
pub mod Owned
pub mod Life
pub mod Answering
pub mod Conversation
pub mod Tasks
pub mod Frame
pub mod Running
pub mod Delivery
pub mod Unclosed
pub mod HalfClose
pub mod Threads
pub mod Forward
pub mod Onward
pub mod Neighbours
pub mod Together
pub mod Tests
pub mod TaskTests
unfoldable pub use Base.*
unfoldable pub use Send.*
unfoldable pub use Handle.*

-- ===== src/Tests.antt =====
-- Concrete inputs, runs of the model on them, and each theorem at one of them.
pub mod Fixture
pub mod Receiving
pub mod Requests
pub mod Clients
pub mod Texts
pub mod Replies
pub mod Files
pub mod Sockets
pub mod Sorting
pub mod Collectors
pub mod Frames
pub mod Arguments
pub mod Counters
pub mod Items
pub mod Passes

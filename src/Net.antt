-- ===== src/Net.antt =====
-- The networking part: Sources/utility.cpp, interface.cpp and socket.cpp.
pub mod ByteOrder
pub mod Pack
pub mod Text
pub mod Address
pub mod Interface
pub mod Socket
pub mod EaiError

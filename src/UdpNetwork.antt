-- ===== src/UdpNetwork.antt =====
-- src/UDPNetwork.hpp and src/UDPNetwork.cpp.
pub mod State
pub mod Aes
pub mod Send
pub mod Process
pub mod Transitions
pub mod Handshake
pub mod Agreement
pub mod Receive
pub mod Reception
pub mod Strangers
pub mod Delivery
pub mod Faults
pub mod Orderly
pub mod Progress
mod Unread
pub mod Service
pub mod Threads
pub mod Evolution
pub mod Loop
pub mod Arrival
pub mod Round
pub mod Connection
pub mod Connections
pub mod Writes
pub mod Meeting
pub mod Cases
pub mod Side
mod Rounds
pub mod Tests
pub mod Runs
pub mod Receipts

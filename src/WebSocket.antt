-- ===== src/WebSocket.antt =====
-- WebSocket connections: frames, the parser of a byte stream and the messages made of frames.
pub mod OpCode
pub mod Frame
pub mod Parser
pub mod Termination
pub mod RoundTrip
pub mod Messages
pub mod Assembly
pub mod Delivery
pub mod Interleaving
pub mod Sending

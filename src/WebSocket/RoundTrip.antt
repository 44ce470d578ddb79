-- ===== src/WebSocket/RoundTrip.antt =====
-- Frames on the wire and back: what to_byte_array of src/twebsocketframe.cpp writes, and what a
-- client sends with a mask, is read back by the parser of src/tabstractwebsocket.cpp.
pub mod HeaderBytes
pub mod Payload
pub mod Frames

-- ===== src/Protocol.antt =====
-- cote3mon/protocol.py: the versioned protocol between the container's client and the gateway.
-- `Wire` is the struct format, `Stream` the reading end of a socket, `Message` the messages and
-- their encoding, `Receive` the functions that read them; the others hold proofs.
pub mod Wire
pub mod Stream
pub mod Message
pub mod Encoding
pub mod Header
pub mod Reader
pub mod Receive
pub mod Call
pub mod RoundTrip
pub mod Canonical
pub mod Rejection
pub mod Pieces
pub mod Responses
mod Tests

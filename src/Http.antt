-- ===== src/Http.antt =====
-- The directory http: messages, the parser's front end, the server's request loop and the clients.
pub mod Decimal
pub mod Request
pub mod Response
pub mod Headers
pub mod Url
pub mod Parser
pub mod Messages
pub mod Bodies
pub mod Check
pub mod Buffer
pub mod Run
pub mod Stream
pub mod Reply
pub mod Server
pub mod Conn
pub mod Delivery
pub mod Received
pub mod ConnInit
pub mod Client
pub mod Https
pub mod Secure
pub mod Tls
pub mod TlsExchange
pub mod Pieces
pub mod ConnExchange
pub mod Op
pub mod Exchanged
pub mod Outcome
mod Tests
mod ServerTests
pub mod ClientTests

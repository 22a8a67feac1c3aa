-- ===== src/Signing.antt =====
-- Signed requests: src/lib/hmac.ts. `Platform` is what the file takes from the JavaScript runtime
-- and from Node's crypto. Texts are lists of UTF-16 code units, and times are milliseconds.
pub mod Canonical
pub mod KeyOrder
pub mod Nonces
pub mod Validation
pub mod Accepted
pub mod Replay
pub mod Future
pub mod Examples

-- ===== src/Messages.antt =====
-- Messages on a contract: the send route src/app/api/v1/contracts/[id]/messages/route.ts, the SQL
-- function `insert_message_atomic` that it calls, and the rules on what a message may say.
pub mod Attention
pub mod Structure
pub mod Insert
pub mod Request
pub mod Send
pub mod Serve
pub mod Ending
mod Examples
pub mod Once
pub mod Scanner
pub mod Retries
pub mod Refusals
pub mod Ledger
pub mod Reading
pub mod Accounting

-- ===== src/Req.antt =====
-- src/req.c: the strings of a request, the pool of requests, and the handling of one request.
pub mod Params
pub mod Split
pub mod State
pub mod Handle
pub mod Settled
pub mod Answer
pub mod Serve
pub mod Outcome
pub mod Total
pub mod Succeeds
pub mod Handled
pub mod Locked
pub mod Kept
pub mod Frame
pub mod Lost

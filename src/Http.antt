-- ===== src/Http.antt =====
-- src/http: requests and responses.
pub mod Bytes
pub mod Responses
pub mod Parser

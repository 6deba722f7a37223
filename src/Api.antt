-- ===== src/Api.antt =====
-- src/api: requests, responses and the handlers.
pub mod Request
pub mod Response
pub mod Decide
pub mod Status

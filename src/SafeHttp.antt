-- ===== src/SafeHttp.antt =====
-- internal/safehttp/client.go: the policy of outgoing requests.
pub mod Address
pub mod Policy
mod Tests

-- ===== src/Api.antt =====
-- internal/api: the handlers, the middleware and the answers that they give.
pub mod Responses
pub mod Backpressure
pub mod Handlers
pub mod Health
pub mod Middleware
pub mod Router
pub mod Metrics
pub mod WebSocket

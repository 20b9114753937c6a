-- ===== src/Gateway.antt =====
-- The gateway's own state: websocket sessions (services/gateway/pkg/websocket/session.go) and
-- registered integrations (services/gateway/pkg/integrations/registry.go).
pub mod Sessions
pub mod Integrations
pub mod Examples

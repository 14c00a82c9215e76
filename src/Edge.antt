-- ===== src/Edge.antt =====
-- The edge server of internal/server: routes, the registry, public ports, the hub and the handlers.
pub mod Routes
pub mod Registry
pub mod Ports
pub mod Hub
pub mod Server
pub mod Usage
pub mod History
pub mod Ingress
mod Tests

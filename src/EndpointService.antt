-- ===== src/EndpointService.antt =====
-- internal/app/agent/service/endpoint_service.go: the endpoints of a chain, loaded from the configuration
-- and the provider, merged, and kept in the cache. The children hold the state of the service and the
-- refresh of the endpoints' attributes.
pub mod Source
pub mod Service
pub mod Refresh
pub mod Loading
pub mod Sharing
pub mod Stability
pub mod Purging
pub mod Attributes
pub mod Refreshing
pub mod Calls

-- ===== src/Agent.antt =====
-- internal/app/agent/service/agent_service.go: the proxy's handling of one request body, with its
-- cache of results. The children hold the cache, the upstream call and the whole of `Call`.
pub mod Store
pub mod Upstream
pub mod Batch
pub mod Service
pub mod StoreLaws
pub mod UpstreamLaws
pub mod Misses
pub mod Answers
pub mod Single
pub mod Rules

-- ===== src/Endpoint.antt =====
-- pkg/workloadendpointmanager: the SpiderEndpoint, which records what was allocated to a pod.
pub mod Records
pub mod Details
pub mod Configs
pub mod Manager

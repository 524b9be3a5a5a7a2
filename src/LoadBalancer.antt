-- ===== src/LoadBalancer.antt =====
-- pkg/tencentcloud/tencentcloud_loadbalancer.go and pkg/tencentcloud/loadbalancer.go
pub mod Annotations
pub mod Lookup
pub mod Name
pub mod Task
pub mod Instance
pub mod Listeners
pub mod Backends
pub mod Service

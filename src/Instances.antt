-- ===== src/Instances.antt =====
-- pkg/tencentcloud/instances.go
pub mod Lookup
pub mod Api
pub mod ProviderId
pub mod Answers
pub mod Complete
pub mod Answered

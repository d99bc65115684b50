-- ===== src/Training/Profile.antt =====
-- internal/training/profile.go: how the declared parameters of a training stage are resolved.
pub mod Types
pub mod Stages
pub mod Resolve
pub mod Resolved
pub mod Budget
mod Tests

-- ===== src/Observability.antt =====
-- pkg/observability: the checks of validation.go.
pub mod Validation
mod Tests

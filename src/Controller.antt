-- ===== src/Controller.antt =====
-- internal/driver/controller.go: the CSI controller service. `Requests` has the requests and the
-- checks that touch nothing, `Errors` the mapping of the CLI's errors to gRPC statuses, `Volumes`
-- the calls.
pub mod Requests
pub mod Capacity
pub mod Errors
pub mod Volumes
pub mod Idempotent
mod Tests

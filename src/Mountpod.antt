-- ===== src/Mountpod.antt =====
-- internal/mountpod: the mount pods of one node. `Exit` reads how a mount process ended, `Backoff` is
-- the restart state of the volumes, `Pod` the pods and their states, `Spec` what a pod is built from,
-- `Manager` the calls.
pub mod Exit
pub mod Backoff
pub mod Pod
pub mod Spec
pub mod Config
pub mod Kube
pub mod Manager
pub mod Sample
mod Tests

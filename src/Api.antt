-- ===== src/Api.antt =====
-- pkg/apis/commons/v1alpha1: the cluster spec that the reconciler reads and the status it writes.
pub mod Spec
pub mod Config
pub mod Status

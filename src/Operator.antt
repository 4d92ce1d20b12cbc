-- ===== src/Operator.antt =====
-- internal/operator: the controller that turns sandbox claims into pods.
pub mod Reconciler
pub mod Admission
pub mod Controller
pub mod KubeClient
mod Examples

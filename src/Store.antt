-- ===== src/Store.antt =====
-- internal/ingress/controller/store: the state of the cluster as the controller keeps it.
pub mod ObjectRef

-- ===== src/K8s.antt =====
-- internal/k8s: the cache of the objects that the informers watch, and the debouncer of its updates.
pub mod Debounce
pub mod Store

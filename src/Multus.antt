-- ===== src/Multus.antt =====
-- pkg/multuscniconfig: the Multus networks that the annotations of a pod select.
pub mod Networks

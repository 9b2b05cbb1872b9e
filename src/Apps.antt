-- ===== src/Apps.antt =====
-- pkg/applicationcontroller/applicationinformers: the names that auto-created pools and their
-- applications go by, and the numbers of their addresses.
pub mod Names
pub mod Numbers

-- ===== src/Runtime.antt =====
-- trpcservice/runtime: the execution queue and the backend migration.
pub mod Queue

-- ===== src/Sql/Eval/Paging.antt =====
-- OFFSET and LIMIT against `drop` and `take`.

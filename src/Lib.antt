-- ===== src/Lib.antt =====
-- A model of go-db, a relational database in Go: pages in a file behind a buffer pool (storage/), a
-- key-value store of records in those pages with a write-ahead log, snapshots and tables (kv/),
-- and a SQL front end with its executor (sql/).
--
-- Base: Go's errors and panics (Result, Exec), byte strings and encoding/binary (ByteStrings), int64
--   (Int), maps with text keys (Assoc), lists by native numbers (Lists), and the characters of UTF-8
--   with their upper case and folding (Runes).
-- Storage/Page: storage/page.go. Every function of the source has one of the same name in lower case.
-- Storage/Pool: storage/buffer_pool.go. `get`, `put`, `make_room`, `evict` and `flush` are `Get`,
--   `Put`, `makeRoomLocked` with the eviction in it, and `Flush`. The list and the map of the source
--   are one list, since each operation writes both. The callbacks for the disk are parameters, and
--   Pool/View states what they promise of whole pages, as the interface `Disk`. A page is a list of bytes;
--   that it has 4096 is a condition of the theorems, and every page of the source has so many.
-- Storage/Pager: storage/pager.go, on the pool; a file is the list of its bytes. Pager/File has the
--   callbacks `readPageDisk` and `writePageDisk` as such a disk, over which the runs in Tests go.
-- Kv/Record: `record`, `readRecord`, `writeRecord` of kv/store.go and the loop over the records of a page.
-- Kv/Snapshot: the versions and snapshots of kv/store.go.
-- Kv/Wal: kv/wal.go. The checksum, the log's file and the callback of `replay` are parameters.
-- Kv/Btree: kv/btree.go, with a node's height in its type. The chain of leaves, their `next` pointers, is not modelled: what
--   walks it reads the tree from left to right.
-- Kv/Store: the `Store` of kv/store.go, with `Put`, `Delete`, `Get`, `ApplyBatch`, `Flush` and `append`;
--   Store/Recovery has `Open`, `validatePages`, `rebuildIndex`, `rebuildVersions` and
--   `CheckInvariants`. The log's file and the file of the index are parameters, the record `Files`.
--   Store/Compact has `Compact`.
--   Store/Chain says what the pages of a store hold, Store/Effects what the calls of the pager do to
--   them, Store/Restoring what the
--   records stand for, and Store/Walk, Indexing, Append, Rebuild, Puts and Deletes are the proofs.
-- Kv/Value, Kv/Codec: the schemas of kv/table.go, and rows as bytes.
-- Sql/Token, Sql/Lexer: `Lex` of sql/sql.go. Sql/Ast, Sql/Stream, Sql/Parser: the statements, the
--   `parser` with `cur`, `take` and `want`, and `Parse` with one function per `...Stmt` method.
-- Sql/Bind, Sql/Split, Sql/Eval: prepared statements, `splitStatements`, and the evaluation of
--   conditions, comparison, coercion, order and paging of the executor.
-- Kv/Table: `Table` of kv/table.go over a store. Table/Secondary is its secondary index, Table/Rows has the rows
--   as values, and Table/Reindex and Table/Upkeep are the proofs.
-- Kv/Catalog: kv/catalog.go, with the JSON encoder and decoder and the write of its file as
--   parameters. JSON keeps texts that are UTF-8, which the theorem on it asks.
-- Sql/Select: `selectRows` behind the reading of the tables, with joins, groups and aggregates.
-- Sql/Executor: the `Executor` with `rows`, `recordWrite`, `begin`, `commit` and `rollback`; its children
--   Statements (INSERT, UPDATE, DELETE), Queries (SELECT, EXPLAIN, SHOW), Definitions (CREATE, DROP, ALTER,
--   and the dispatch) and Requests (`Execute`, and prepared statements). A table is a pointer into the
--   heap of the tables, and a row of a transaction's write is a reference, since `update` changes it in
--   place.
-- Tests: runs at concrete inputs.
--
-- Fuel. `lex_loop` has one round more than the input has bytes, and each round takes a byte. The
-- parser's loops have as many rounds as there are tokens, and each round takes a token that is not the
-- last. `for_records` has a round for each byte of a page, and a record takes five at least.
-- `key_index_loop` has one round more than there are keys, and each round narrows the interval.
-- `chain_end` and `rebuild_from` have one round more than the file has pages, and a link goes to a page of
-- a greater id. `replay_loop` has one round more than the log has bytes, and a record takes 21 at least.
-- Running out of fuel is the outcome `stuck`, which is none of the program's.
--
-- Integers. A uint64, uint32 or uint16 wraps round by `%`. An int is an integer, with the sums
-- that can leave its range written out where the program computes them.
--
-- Not modelled: opening, closing and syncing of files, the mutex of the pool, backup, the server and the
-- command line (input and output); `Close` of a store, which is its flush and the closing of the
-- files. Floats, `fmt.Sprint`, `time.Parse`, CRC-32, JSON and the calls on the log, on the file of the index and on new files are parameters. The
-- lexer classifies single bytes, as Latin-1. Upper case and folding are of characters: those above
-- ASCII that have an ASCII upper case or fold with ASCII do so, and those of Latin-1 fold among
-- themselves, while the folding of other alphabets, which matters for the names of columns
-- alone, is left out.
pub mod Base
pub mod Storage
pub mod Kv
pub mod Sql
pub mod Tests

-- ===== src/Lib.antt =====
-- GoDatabase: a key-value database with transactions, relational tables over it and an SQL subset.
--
-- The program's parts. db/ holds the database, its transactions and its tables; a database keeps its
-- entries in a map, or in a durable engine (internal/engine) over a B+tree on a file
-- (internal/btree). Rows, schemas and index entries are encoded as keys and values of the database.
-- internal/sql lexes, parses and executes SQL statements on it. internal/structures,
-- internal/experiment, internal/trace, internal/metrics and internal/server are a laboratory that
-- compares data structures over HTTP.
--
-- Which file models which part:
--   * Base: Go's strings, maps, words, int64 and results, for all modules. A `Result` is a value, an
--     error, or the panic of an access out of range; Base.Assoc is a map with string keys.
--   * Db.Engine: `Store` and `Mutation` of internal/engine/interface.go. The engine is a record of
--     operations and laws that Db.Database and Db.Tx take as a parameter. The laws say what a store
--     documents of a call that succeeds, on a store whose last publication did not fail.
--   * Db.Database: `Database` of db/db.go, with getLocked, setLocked and rangeLocked of db/table.go.
--     Methods hold the mutex throughout, so each is a function from a state to a state and a result.
--     Its children Reads and Writes are about what it holds.
--   * Db.Tx: `Tx` of db/db.go. Its child Overlay says what a transaction shows of its database,
--     Commit what a commit or a rollback leaves, Writers that writers are admitted one at a time.
--   * Db.Escape, Db.Value, Db.Schema, Db.Row: escape, prefixEnd, encodeValue, validateSchema,
--     encodeRow and what decodes them, of db/table.go and db/index.go. A Go `any` is `Value`.
--   * Sql.Token, Sql.Lexer, Sql.Parser: internal/sql/lexer.go and internal/sql/parser.go. The lexer's
--     input and position are a cursor, the parser's tokens and position the list of the tokens left.
--     Error texts are constructors. Of the parser's children, Total is about termination, Shape
--     about what every parsed statement satisfies.
--   * Db.Index: index metadata and the keys of index entries, of db/index.go.
--   * Sql.Executor: compare, literalValue, matches and project of internal/sql/executor.go.
--   * Structures: internal/structures. Contract is the interface `KV` as a record of operations and
--     laws, HashMap fills it for `Map` and SortedSlice for `SortedSlice`, and Cache takes it as a
--     parameter.
--   * Btree.Memory: the B+tree in memory of internal/btree/node.go, tree.go and memory.go. Its child
--     Removal has the deletion and Range the range; Shape says what a well-formed tree is, Links what a chain
--     of leaves is, and the children of Links that the operations keep it; Contract
--     makes it an implementation of the contract of Structures. The other children are the steps of
--     the proofs: Entries and Erase on sorted entries, Split and Insert on insertion, Rebalance,
--     Neighbours, Refresh, Settle, Between and Delete on deletion. A node is a tree of values, so a
--     parent and its child are changed together. A leaf has an address and the address of `next`,
--     and a new leaf the next unused one; following `next` looks the address up among the leaves of
--     the tree, and is given as many rounds as there are leaves. A pointer to a leaf that is not in
--     the tree is a panic, and no call leads there.
--   * Btree.Disk, Btree.FreeList, Btree.PageManager: the pages of the durable B+tree, of
--     internal/btree/page_manager.go and free_list.go. The file and the checksum are a parameter,
--     `Disk`. Pages are what the manager keeps besides the file; Publish has the publication of a
--     root, Allocate the allocation of a page, Recover what is read when a file is opened. Counts,
--     Free, Plan, Assign, Keeps and Commit are about the lists of pages.
--   * Tests: runs at concrete inputs, over an engine that keeps an association list.
--
-- Fuel: the lexer's loop is given one round more than the input has bytes, and each loop of the
-- parser as many rounds as there are tokens. The loop over the nodes of a free list that is read is
-- given one round more than the file has pages. A loop without fuel panics, and no input leads there.
--
-- Not modelled: the paged B+tree and its nodes, and the key-value store over them; the operations of
-- tables and indexes; the statements of the SQL executor; and of the laboratory the storage, the
-- traces, the runs, the metrics and the server. Locks, texts of errors and measured times are left
-- out of what is modelled.
pub mod Base
pub mod Btree
pub mod Db
pub mod Sql
pub mod Structures
pub mod Tests

-- ===== src/Lib.antt =====
-- A model of the Rust core of Ugoite, a store of Markdown entries with typed forms: its entries
-- with their revisions and links, its audit log, its SQL queries with the scope of their reader, its
-- authentication and its SQL sessions.
--
-- The parts and their files
--   Common    what the Rust standard library gives: results, lists over native numbers, stable
--             sorting (Sort), `HashMap` as an association list (Maps), operations of `str` (Text).
--   Json      `serde_json`: values, the sorted map of an object with its laws (Object), the order of
--             f64 by bit patterns (Float).
--   External  functions of crates that the audit log calls, as a parameter.
--   Audit     ugoite-core/src/audit.rs. A function of the source is the function of the same name;
--             a call that writes returns the files it leaves. Space, Hash and Log are the code; Chain,
--             Tamper and Append are about the hash chain and its writes, Listing about pages and about
--             space identifiers.
--   Sql       ugoite-core/src/sql.rs. Syntax is the part of the syntax tree of the `sqlparser` crate
--             that the code looks into; Parse is `parse_sql`; Values, Context and Where are the
--             comparison of JSON values, `RowContext` with the resolution of identifiers, and
--             `matches_expr`; Run is `filter_entries_by_sql`, its loops as functions by recursion.
--             Joined describes the rows of joins apart from these loops; Joins, Bounds, Provenance,
--             Plain and Semantics are about joins, rows and conditions.
--   Auth      ugoite-core/src/auth.rs. Config reads the configured credentials, Signed is
--             `authenticate_signed_bearer`, Headers is `authenticate_headers_core`,
--             Capabilities the snapshot of what is configured.
--   Entry     ugoite-core/src/entry.rs. Types are its records; Sections and Render the Markdown of an
--             entry, read and written; Cells and Rows the columns of its tables; Store the tables of a
--             space and what is read from them; Read and Write the calls. A call that writes returns
--             its result and the tables after it. Latest, Home, Appended, Conflicts, Revised, Answers,
--             Deleted and Created are about what is read after a write, Partial about a creation that
--             fails, Growth about any sequence of calls, Frame about the tables as a map of entries,
--             Nanos about times in nanoseconds.
--             The children of Cells, Read and Write (Kinds, Rendered, Parts) hold their types and the
--             functions without parameters, those of Home and Growth (Best, Prefixes) their lemmas.
--   Links     ugoite-core/src/link.rs, over the tables of Entry; Lost is about links that are written
--             behind the clock of an entry.
--   Metadata  ugoite-minimum/src/metadata.rs, its two registries as a value.
--   Forms     from ugoite-core/src/form.rs: the normal form of a definition with its checks, which
--             Definitions is about, and what a reader of forms gets.
--   Index     from ugoite-core/src/index.rs: Properties and Validation are the properties of an entry
--             and their check against its form, about which Required is; Records builds the records of a
--             space and Stats counts them; Tables builds the tables of a query and the scope of
--             its reader, Query is `query_index` with its filters.
--   Preferences  ugoite-core/src/preferences.rs, over a map of files; Patched is about what is read
--             after a patch.
--   Session   ugoite-core/src/sql_session.rs, from the content of the session's `meta.json` on.
-- Session runs the queries of Index; Index builds the tables that Sql reads, from the entries that the
-- scope leaves. Entry checks what it writes by the validation of Index, and Links changes the rows of
-- Entry.
--
-- How code is modelled
--   `?` is the bind of `Result`; an error is its message. A panic is an error of its own text. Every
--   loop is a recursion on the list it walks, so no fuel is needed. `Vec::sort_by` is a stable
--   insertion sort: the comparisons of the real sort may be others, which shows in the order of
--   rows whose comparison is not transitive, and in whether a failing comparison is met. A hash map
--   iterates in the order of insertion. Numbers of type `usize` are unbounded but for the sum in
--   `session_page`, which wraps at 2^64. The lock of a space makes a call on the audit log one step.
--   The tables of entries and revisions are the sequences of the rows that were appended, and a scan
--   is in that order; a writer at a time changes them. Arrow may refuse the arrays of a row, by the
--   types that the form declares, for either table: then the call fails, after the row of the entry
--   is written where it is the row of the revision. The write of the audit log may fail and leave
--   any files. An f64 is its bit pattern, and its operations
--   are a parameter. Times are compared as the code does, after they are rounded to microseconds.
--   Messages that print a syntax tree of the `sqlparser` crate end before it.
--
-- Parameters
--   The codecs of JSON and base64, SHA-256, HMAC-SHA256, the parser of the `sqlparser` crate, the
--   `regex` crate, the Unicode case tables, conversions and operations of f64, YAML, URLs,
--   `chrono`, `uuid`, the clock and fresh identifiers are fields of the records External, Library,
--   Crypto, Clock, Fresh, MarkdownCrates, ColumnCrates, PropertyCrates, PreferenceCrates, FloatOps
--   and Moment. A theorem that relies on one of them says so in a hypothesis.
--
-- Not modelled
--   I/O errors, but for the write of the audit log, and the decoding of UTF-8; the cache of compiled LIKE patterns, which changes no
--   answer; the files and the catalog of the iceberg tables; the upsert and the migration of forms;
--   how spaces, saved queries and assets are stored; the Python bindings, the command line client
--   and the sample data.
pub mod Common
pub mod External
pub mod Json
pub mod Audit
pub mod Sql
pub mod Auth
pub mod Entry
pub mod Links
pub mod Index
pub mod Metadata
pub mod Forms
pub mod Preferences
pub mod Session

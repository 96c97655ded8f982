-- ===== src/Lib.antt =====
-- iList is a file index and manager on Cloudflare Workers: a Worker (src/worker) keeps its state
-- in a D1 database, reaches storage providers over HTTP, and serves a React interface (src/ui).
-- This library models the resumable uploads of the Worker, with the table upload_sessions, its
-- native file system, with the tables entries and storage_recovery_operations and the bucket of
-- blobs, its rate limit of password verifications, with the table auth_rate_limits, its shares,
-- with the table shares, and the reducer of the upload queue in the interface.
--
-- Base: shared names. Base/Exec.antt is the monad of an async function of the Worker. A run has a
--   world (the table, a counter of outside events, the provider calls made so far) and an outside
--   (the clock, random identifiers, what other requests do to the table before a statement, and
--   which statements D1 refuses). A function may return or throw, and what it wrote before it threw
--   stays written. One SQL statement is one atomic step, which D1 documents; other requests run
--   between any two. Base/Table.antt has UPDATE, DELETE and SELECT on a table as a list of rows.
--   Base/Keeps.antt has one rule for each way to build a function that keeps an invariant.
-- Json: values of JSON. `JSON.parse` and `JSON.stringify` are a parameter (Codec).
-- Upload: src/worker/upload-session-store.ts and src/worker/upload-service.ts.
--   Row: UploadSessionRow, UploadSessionRecord and the inputs (types.ts, drivers/types.ts).
--   Stored: the checks and the parsing of the JSON columns (isCompletedUploadPart, parseParts,
--     parseCompletedItem). PartList and its children: what parsing and recording make of a list.
--   Check: assertStoredRow, rowToRecord, assertCreateInput. The credential cipher is a parameter.
--   Statements: the WHERE and the SET clauses of each UPDATE. Run: the same as one data type of
--     statements, run on one row in any order. Run/Invariant, Run/Leases, Run/Final: theorems.
--   Store, Store/Parts, Store/Lists: the functions of upload-session-store.ts, by their names.
--     Store/Safety: theorems.
--   Rivals: the other requests, as statements that rows meet between the steps of one request.
--   Service: upload-service.ts. Errors: errors and normalizeProviderError. Parts: the arithmetic of
--     parts. Session: ownedSession, sessionDriver. Create: createResumableUpload,
--     getResumableUpload and listResumableUploads. PartUpload, Finish, Abort: uploadResumablePart,
--     completeResumableUpload, abortResumableUpload and cleanupExpiredUploads, each continuation
--     after an await or a catch as a function of its own. Tiling, Safety, Sound, Create/Sound:
--     theorems.
-- FileSystem: src/worker/file-system.ts (but for virtual directories), the functions of src/worker/db.ts from
--   getEntryById to retryStorageRecoveryOperation, src/worker/entries.ts, and the names and keys of
--   src/worker/entry-domain.ts.
--   Row: EntryRow and StorageRecoveryOperationRow (types.ts), the two tables with the bucket.
--   Entries, Recovery: the WHERE and SET clauses on one row of each table. Entries/Run, Recovery/Run:
--     the same as data types of statements. Entries/Run, Recovery/Run/Leases: theorems.
--   Tree: parents, the recursive trigger of migrations/0002_entries.sql and the well-formedness of
--     entries. Its children (Keep, Update, Delete, Insert, Move, Fuel): theorems.
--   Store: the statements on entries with their CHECK, UNIQUE and FOREIGN KEY constraints and
--     triggers, by the names of db.ts; Store/Operations: those on storage_recovery_operations.
--     Store/Keep, Store/Exclusive, Store/Descendants, Store/Claim: theorems.
--   Ancestors: listAncestorRows and isEffectivelyPublic. Ancestors/Public: theorems.
--   Names: validateEntryName, storageKeyForEntry. Api: entryToApi. Errors: the errors and the loop
--     that the batches share; Errors/Batch: theorems.
--   Db: one call of the database or of R2 as one step, which may fail without an effect.
--   Edit: requireFolder to moveEntries, and setEntriesVisibility. Copy: copyEntries. Remove:
--     deleteEntryTrees. Receive: uploadFile. Recover, Recover/Tree: reconcileStorageRecovery.
--   Listing: resolveEntryPath, breadcrumbsFor, listDirectory, over the segments of a path.
--     Listing/Visible: theorems.
--   Rivals: the other requests, as writes between two steps. Whole and its children: theorems on all
--     requests, which Whole/Requests has as one data type.
-- AuthLimit: src/worker/auth-rate-limit.ts and the functions of src/worker/db.ts on auth_rate_limits.
--   Row: AuthRateLimitRow, the WHERE, SET and VALUES clauses. Run: the statements about one key as
--     one data type, run on the row of the key, which may be absent, but for the deletion of rows
--     that were not used for a long time. Run/Leases, Run/Locked: theorems.
--   Store: the functions of db.ts by their names, over the table.
--   Retry: the waiting time of a refusal. Service: auth-rate-limit.ts, by its function names;
--     Service/Lease, Service/Acquire, Service/Refused, Service/Kept, Service/Outcome: theorems. The
--     HMAC that makes a key of scope, address and subject, `trim` and the random token are parameters.
--     Times are seconds.
-- Share: src/worker/share-store.ts and src/worker/share-policy.ts.
--   Row: ShareRow, the record, the WHERE and SET clauses, the policy. Run: the statements about one
--     share as one data type. Limit: theorems. Store: the functions, by their names.
-- Queue: src/ui/features/uploads/upload-reducer.ts. Task: tasks and actions. Reducer: uploadReducer.
--   PartSet, Bound: theorems. The percentage of a progress is rounded from the exact quotient, where
--   the source divides in floating point.
--
-- A row of upload_sessions is sound if it passes assertStoredRow and its status fits its completed
-- item. Numbers are natural numbers; safe integers are those up to 2^53 - 1, and the times of uploads
-- are milliseconds. The time columns created_at and updated_at, ISO texts in the database, are those
-- numbers as well. The recursive queries on entries have fuel: the number of rows and one, for the
-- trigger and for the levels below an entry, and 256 for the levels above it, where the query itself
-- stops. The copy of a tree has a bound of its depth, which the program has in its stack; all other
-- functions are structurally recursive. An upload's heartbeat and a worker's are the touches that the
-- code awaits; those of their intervals are writes of other requests.
--
-- Not modelled: the details of provider errors (retryAfter), the entry that externalEntry makes of a
-- completed item, exportOptions of items, the CHECK constraints of the tables but entries, abort
-- signals and request bodies as streams, blobs beyond their keys and metadata, virtual paths and
-- the directories of mounts,
-- and the components of the program that have no module here.
pub mod Base
pub mod AuthLimit
pub mod FileSystem
pub mod Json
pub mod Queue
pub mod Share
pub mod Upload

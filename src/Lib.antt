-- ===== src/Lib.antt =====
-- Cloud Drive: the services of the server for files and folders, with their permissions, public
-- links, uploads, trash and snapshots, as backend/app has them.
--
-- The services keep all their state in the database and in the object storage. The record Db of
-- Model.antt holds both: a list of rows for each table (backend/app/models), the stored objects and
-- the activity log. A service method is a function of Db that returns a result or an error together
-- with the new Db (Exec.antt); what was written before an error stays written, since the rollback
-- is the request handler's. Read.antt is the same for the methods that only read. Ids, instants in
-- seconds and hashes are natural numbers; a name is the list of its characters' codes. `uuid4()`, the
-- clock, the hash and the check of a password are arguments of the functions that use them.
--
-- The parts, and the files that model them:
--   Prelude      shared names, tests into Bool, lists with native lengths, a pigeonhole lemma
--   Model        rows, enumerations and errors of backend/app/models and backend/app/core
--   Exec, Read   results, the steps of a method, and rules for each way in which a step ends
--   Items        the table of items, backend/app/drive/repository.py
--   Tree         walks from an item to the root, and what a change of the table does to them
--   Permission   backend/app/permission: inherited permissions and the checks built on them
--   Naming       names, extensions and numbered names of drive/service.py and upload/service.py
--   Prefs        stars (drive/repository.py) and entries of the log (activity_log/repository.py)
--   Drive        backend/app/drive/service.py: folders, names, moves, stars, the walks up the tree
--   Trash        backend/app/trash: trashing, restoring, permanent deletion, emptying
--   Versions     backend/app/file_version
--   Blobs        backend/app/storage: objects by key
--   Quota        the accounts of bytes in backend/app/users/service.py and its repository
--   Upload       backend/app/upload/service.py: uploads of whole files
--   Session      backend/app/upload/session_service.py and its repository: uploads in chunks
--   Snapshot     backend/app/snapshot: capture, retention, schedule, garbage, restoring
--   Share        backend/app/share/service.py: shares with users
--   Link         public links: share/service.py for their owner, public_share/service.py for guests
--   Download     backend/app/download and backend/app/core/mime.py: files and archives
--   Auth         backend/app/auth: accounts and refresh tokens
--   Assistant    backend/app/assistant: plans of a language model, their steps and workflows
--   History      sequences of requests
--   Tests        a small drive on which each theorem is applied
--
-- How they interact: Drive, Upload and Session ask Permission before they write, and Items for names;
-- Upload and Session charge Quota and write Blobs and Versions; Trash takes versions, bytes and
-- blobs back, and leaves to Snapshot.collect_garbage what a snapshot still reaches; a guest's
-- write in Link runs the operation of Drive, Upload or Trash as the owner of the shared item.
--
-- The assistant keeps its own tables beside Db in AssistantState: Validate checks what the planner
-- answers, Steps classifies it, Selection puts the ticked items in, Chat runs it or stores it, and
-- Executor runs the handlers of the skills, which are functions of Db in the registry. A JSON value is
-- a Value, without fractions. What the language model answers, and whether a message asks for a new
-- skill, are parameters; the texts of prompts and reports are left out. The hash of a password, the
-- signature of a token and its hash are parameters of Auth.
--
-- Loops run on fuel where the source has `while`. The walks to the root get the number of rows and
-- three more: a walk on a table without a cycle is no longer than the table. The search for a free
-- name gets one round more than there are rows: each taken name is the name of a row, and the
-- numbered names differ from each other. With fuel used up a loop returns the error `diverges`.
-- The walk down from a folder has a round for each level and gets as many rounds as the walks up; the
-- loops of a restore go by the entries, each of which goes on the stack twice at most.
-- The walk of a guest's request is bounded by 64 in the source.
--
-- The table of items has a unique index on owner, folder and lower(name) of its live rows, and bounds on
-- the lengths of names and extensions; a flush that meets them raises (row_error in Items). `lower`
-- depends on the database's collation and is a field of Db. The rows that the restoring of a snapshot
-- writes are not held against the index.
--
-- Not modelled: connections to outside models, search,
-- previews, e-mail, the routes, the loops of the schedulers and the web client. Of the
-- modelled parts, the pages of the listings, the search index and the files of the local storage are
-- left out, and so are the assistant's stored conversations and the skills that users write.
pub mod Assistant
pub mod Auth
pub mod Prelude
pub mod Model
pub mod Exec
pub mod Read
pub mod Items
pub mod Tree
pub mod Permission
pub mod Naming
pub mod Prefs
pub mod Download
pub mod Drive
pub mod Trash
pub mod Upload
pub mod Session
pub mod Snapshot
pub mod Share
pub mod Link
pub mod Quota
pub mod Blobs
pub mod Versions
pub mod History
mod Tests

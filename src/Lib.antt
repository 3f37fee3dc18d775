-- ===== src/Lib.antt =====
-- familycards: the server of a family's shared, end-to-end encrypted cards.
--
-- The server (server/internal) keeps one SQLite database and a directory of encrypted blobs. Members
-- sign in on devices; a device pushes and pulls items by revision, uploads blobs that items refer to,
-- and invites further members. Timers collect the blobs that are no longer needed and purge old
-- tombstones. This library models these parts as functions on a database value and proves what they
-- promise. Paths below are under server/internal unless they start with server/.
--
-- Files and the code that they model:
--   Prelude        Boolean tests, integers, text order, lists, and tables as lists of rows
--   Http           httpapi/errors.go, httpapi/base64.go: errors, replies, bodies
--   Store/Rows     model/model.go: the rows, and the database `Db` as one record of tables
--   Store/Tx       storage/storage.go: a transaction is a function from `Db` to a value or an error
--                  with the `Db` written so far; `with_immediate_tx` commits or rolls back;
--                  `Store/Pools` has the opening and closing of the two pools
--   Sync           sync/: `Resolve` (resolve.go), `Repository` (repository.go), `Wire` (types.go and the
--                  conversions), `Push` and `Changes` (handlers.go; `Paging` is a client that reads all
--                  pages); `Delivery` puts push and changes together; `Revisions` and `Backed` hold
--                  the invariants of the tables
--   Blobs          blobs/: `Repository`, `Files` (store.go), `Handlers`, `Gc`; `Stocked` has the rows with their
--                  files
--   Auth           auth/: `Repository`, `Context`, `Tokens` (jwt.go), `Kdf`, `Middleware`, and of
--                  handlers.go `Bootstrap`, `Session`, `Account` and `Recovery`; `Services` is the
--                  interface to password hashing, HMAC, SHA-256 and the JWT library
--   Membership     membership/: `Repository`, `Invites`, `Redeem`, `Members`
--   RateLimit      ratelimit/: the token buckets
--   Config         config/config.go: `load`
--   Router         httpapi/router.go, `Middleware` and `Response` for httpapi/middleware.go
--   Migrations     migrations/migrations.go: the file names, their order and the loop
--   SelfSigned     selfsigned/selfsigned.go: which certificate is used or issued
--   Admin          admin/backup.go: the checks, the statement and the archive
--   Crypto         crypto/password.go: the hash of a password and its verification; `Filled` puts them into
--                  the `Services` of the handlers
--   Wallet         server/cmd/wallet/main.go: what the router is given; tls.go: the TLS setup, the
--                  redirect and the fingerprints that are logged; `Main` has the start and the end of the
--                  process, `main` of main.go
--   System         the whole server: the writing requests and the timers of main.go as steps
--                  between states of the database and the disk. `Kept` lists what each transaction has
--                  to keep, `Stepwise` breaks that down to statements, `Accounts`, `Members` and
--                  `Requests` lift it to the requests, and `Blind` and `Apart` are predicates that look
--                  at a part of the tables; `Sound`, `Staffed` and `Served` are about all states
--                  that can be reached, and `Keyed` is what `Staffed` needs of the keys
--   Tests          concrete services, and the theorems at concrete inputs
--
-- How the parts meet: main.go reads the configuration, applies the migrations and builds the router.
-- A request passes the HTTPS check, the limiter of its path and, on a protected route, the bearer
-- check, and then gets to a handler. A handler reads the caller's `Identity` from the request's
-- context, which `require_auth` of Auth/Middleware fills; it checks its input in a function that
-- returns a `Result`, and then runs one transaction. Push reads and writes the vaults, the items and
-- the blobs; the collector reads the items and deletes blobs and files. A function of the source has
-- its name in snake case here; the parts of a long handler are functions of their own.
--
-- Numbers: times of the server, revisions and sizes are natural numbers, and what a client sends as an
-- int64 is an integer. The expiry of an invite is computed in 64 bits with wrap-around.
-- Counters that grow by one for each push or row are taken as unbounded.
--
-- Fuel: `expand_loop` of Auth/Kdf has as much as bytes are wanted; each round adds 32, so the loop
-- ends before the fuel does. `pull_all` of Sync/Changes/Paging has the number of requests, for which
-- the number of changes that are left is enough, as each page that is not empty takes some of them.
--
-- Parameters: base64, SHA-256, HMAC, Argon2, the JWT library, the parsing of integers and the
-- trimming of text are arguments with the laws that the code relies on, and so are the parts of
-- Go's library that the configuration, the router (http.ServeMux), the limiters (float64), the
-- migrations and the certificates call. Random ids and the time are arguments (`Draw`).
--
-- Not modelled: handlers that run side by side (the steps of System are taken one after another, which
-- is an assumption; the race of an upload with a collection is in Blobs/Handlers/Race); errors of
-- the database driver in the statements, and the file system's directories; the figures of the
-- health endpoint and of the hourly summary; what net/http does in listening and shutdown; the log
-- lines of the start; the keys and the PEM files of a certificate; and crypto/hmac.go, idgen/ and
-- logging/, which wrap library calls.
pub mod Prelude
pub mod Http
pub mod Store
pub mod Sync
pub mod Auth
pub mod Blobs
pub mod Membership
pub mod RateLimit
pub mod Config
pub mod Router
pub mod Migrations
pub mod SelfSigned
pub mod Admin
pub mod Crypto
pub mod Wallet
pub mod System
pub mod Tests

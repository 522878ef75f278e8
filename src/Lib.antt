-- ===== src/Lib.antt =====
-- zipstash: a cache for build pipelines, its server and its client.
--
-- A client saves an archive in three steps: CreateEntry gives it presigned requests, it uploads the
-- archive by them, and UpdateEntry completes the upload and publishes the record. It restores one by
-- GetEntry and the presigned requests for the download. The records lie in a DynamoDB table, the
-- archives in an S3 bucket under the same keys. A middleware validates the token of each call.
--
-- Which file models what:
--   Base         bytes, machine words, errors as values, and code that runs in a world (`Io`): a
--                call takes the world and returns a result and the next world; a nil dereference and
--                an endless loop are the result `crash`
--   GoStd        functions of Go's standard library on strings and paths, over lists of bytes
--   Api          the messages of api/gen/proto/go
--   Keys         internal/server/server.go: keys and index values
--   Index, Store internal/index: records, the operations of Store, and the table that MustNewStore
--                makes (Store.Table)
--   Backend      the interface of what the server calls: dynastorev2, S3, the clock, identifiers.
--                Backend/Laws states what the code relies on; no law says that a call succeeds,
--                and none that an index follows its table at once (IsFollowed is a hypothesis)
--   Offsets      calculateOffsets of internal/server/presigner.go
--   Presigner    the rest of internal/server/presigner.go
--   CiAuth       internal/ciauth: claims, bearer header, tokens (jwx is the interface JwtLibrary)
--                and middleware
--   Provision    internal/server/rpc_provision.go
--   CacheService internal/server/rpc_cache.go: CheckEntry is check_entry, CreateEntry create_entry,
--                UpdateEntry update_entry, GetEntry get_entry
--   Rpc          the handlers of api/gen/proto/go/*/v1/*connect and what the servers of
--                internal/commands serve, over the handler of connect (Web)
--   Transfer     pkg/uploader/uploader.go: one part (Transfer.Upload), the goroutines of Upload as a
--                step relation on a pool (Transfer.Pool); pkg/downloader/downloader.go: one part
--                and the outcomes of Download, by the same pool (Transfer.Download)
--   Client       internal/commands/client: SaveCmd over the interface Services (token sources, the
--                three calls, the archive builder, the uploader), RestoreCmd with ExtractFiles over
--                RestoreServices, and how the downloaded parts are put together (Client.Restore);
--                Client/S3 states what S3 documents of the presigned requests, of the parts of an
--                upload and of its completion; over it Client/Sent joins the instructions of the
--                server, Upload and the completion, Client/Delivered the instructions, Download and
--                the client, and Client/RoundTrip the handlers too
--   Archive      pkg/archive: mappings.go and the path mapper of extract.go over what the process
--                asks the system for (Env), ChecksumSHA256 and BuildArchive over the files and the
--                archiver of quickzip, a tree of writes that the outcomes of the writes steer
--   Tokens       pkg/tokens: GetToken over the environment, processes and HTTP (System)
--   Sigv4        pkg/sigv4: RoundTrip over the signer and the transport of the AWS library
--   Admin        internal/commands/admin/create_tenant.go, over the call of the service
--   Memory       a table in memory that keeps the laws of Backend
--   Witnesses    the properties on concrete inputs, and tests
--
-- Bounds. An `int64` and an `int32` are natural numbers below 2^64 and 2^32 with wrap-around and
-- signed comparison. The loop of calculateOffsets runs on the fuel total / part + 1, which
-- Offsets.Loop proves to be enough where nothing wraps around; without fuel the result is an endless
-- loop. File sizes of the presigned instructions are below 2^54.
--
-- Files. An open file is a text that names it, and what it holds is a function of the world. The
-- directory walk of a clean is a call that is given the function for each entry; the walk of
-- BuildArchive is the list of its visits. SHA-256 is a parameter.
--
-- Not modelled: logs and traces, flags and the start of servers, the other generated code,
-- Unicode white space in headers, the end of a record's time to
-- live. Whether a remote call succeeds is open in every theorem, so the
-- properties of the handlers speak of the calls that return and of the ways in which they fail.
pub mod Base
pub mod GoStd
pub mod Keys
pub mod Api
pub mod Index
pub mod Backend
pub mod Store
pub mod Rpc
pub mod Offsets
pub mod Presigner
pub mod CiAuth
pub mod Provision
pub mod CacheService
pub mod Transfer
pub mod Client
pub mod Archive
pub mod Tokens
pub mod Sigv4
pub mod Admin
pub mod Memory
pub mod Witnesses

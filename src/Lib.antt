-- ===== src/Lib.antt =====
-- Skygear Server: models of the parts of the server that decide who may do what, and of its worker queue
-- and its hub, with the theorems about them.
--
-- A request arrives at the router (pkg/server/router), which calls the preprocessors of its route
-- (pkg/server/preprocessor) and then the handler. The preprocessors find out whose request it is and which
-- database it works on; they set fields of the payload, and an error in the response ends the request.
-- Handlers of records fetch a record, check what the user may do with it by access control lists of
-- records and of fields (pkg/server/skydb/access.go), remove the fields that the user may not read or
-- write, run the hooks that plugins registered, and save the difference, in a transaction if the request is
-- atomic (pkg/server/recordutil, pkg/server/plugin/hook, pkg/server/handler/record.go). Plugins are workers
-- that register with a broker (pkg/server/plugin/zmq) and take jobs from its queue. The hub
-- (pkg/server/pubsub) sends what is published on a channel to the connections that are subscribed to it.
-- When the server starts, the schema of the database is migrated (pkg/server/skydb/pq/migration).
--
-- Which file models which part:
--   Common, Common/*        tests, lists, association lists for maps, texts and orders that the parts share
--   Utils                   pkg/server/utils/utils.go: `StringSliceExcept` and the tests on slices
--   Skyerr                  pkg/server/skyerr/skyerr.go: codes, `NewError`, `NewInvalidArgument`, `MakeError`
--   Skydb/Acl, Access       pkg/server/skydb/access.go: `RecordACLEntry`, `RecordACL.Accessible`
--   Skydb/UserRole          the same file: `FieldUserRole` with `ParseFieldUserRole`, `String`, `Compare`, `Match`
--   Skydb/FieldAcl          the same file: `FieldACL`, `FieldACLIterator.Next`, `FieldACL.Accessible`
--   Skydb/Value, Record     pkg/server/skydb/record.go: `Record` with `Get`, `Set`, `Remove`, `Accessible`,
--                           `Copy`, `Apply`, `MergedCopy`
--   Skydb/Schema            the same file: `FieldType` and `RecordSchema`, their `DefinitionCompatibleTo`
--   Skydb/AuthInfo          pkg/server/skydb/authinfo.go: `AuthInfo`, its password, roles, provider data
--   Skydb/AuthData          the same file: `AuthData` with `usingKeys`, `IsValid`, `IsEmpty`
--   Recordutil/Delta        pkg/server/recordutil/recordutil.go: `DeriveDeltaRecord`
--   Recordutil/Scrub        the same file: `scrubRecordFieldsForRead`, `scrubRecordFieldsForWrite`
--   Recordutil/Fetch        the same file: `RecordFetcher` with its two caches, `FetchOrCreateRecord`
--   Recordutil/Modify       the same file: `RecordModifyRequest`, `executeRecordFunc`, `saveHookTriggerer`
--   Recordutil/Assets       the same file: `MakeAssetsComplete`
--   Recordutil/Save         the same file: `RecordSaveHandler`
--   Recordutil/Delete       the same file: `RecordDeleteHandler`
--   Recordutil/SchemaMerger the same file: `schemaMerger`, `ExtendRecordSchema`
--   Skydb/RecordMap         maps whose keys are a `RecordID`
--   Plugin/Hook             pkg/server/plugin/hook/hook.go: the registry of hooks; pkg/server/plugin/hook.go
--   Handler/Atomic          pkg/server/handler/record.go: `atomicModifyFunc`; `WithTransaction` of
--                           pkg/server/skydb/database.go
--   Handler/Results, Saving the same file of pkg/server/handler: the action `record:save`
--   Handler/Deleting        the same file: the action `record:delete`
--   Router                  pkg/server/router: `Payload`, `defaultStatusCode`, `callHandler`, `HandlePayload`
--   Preprocessor/Auth       pkg/server/preprocessor/auth.go: access keys and `UserAuthenticator`
--   Preprocessor/Inject     pkg/server/preprocessor/preprocessor.go: `InjectAuthIfPresent`, `InjectDatabase`,
--                           `RequireAuth`, `RequireAdminOrMasterKey`
--   Migration               pkg/server/skydb/pq/migration/migration.go: `findRevisions`, the loop over revisions
--   Migration/Latest        the same file: `executeSchemaMigrations` and `EnsureLatest`
--   Zmq/Queue, Events       pkg/server/plugin/zmq/broker.go: `workerQueue`, and the messages that change it
--   Zmq/Channels            the same file: `Channeler`, parcels, their retries, timeouts and answers
--   Pubsub                  pkg/server/pubsub/hub.go: `Hub` and its loop `run`
--   Tests/*                 each theorem at a concrete input, and a sorter
--
-- How state and failure are modelled. A struct is a record, and a method that changes it returns the new
-- one. A Go map is an association list; a nil map, slice or pointer is `none` where the code tells it from
-- an empty one. A panic is `none`, or the constructor `panicked`. Times are numbers of nanoseconds, and
-- reading the clock is an argument. What a mutex or a channel puts in order is a list of events.
--
-- Parameters stand for code that is not in the repository or lies behind an interface: `sort.Sort` (a
-- sorted permutation), bcrypt (a hash is accepted with its password), `reflect.DeepEqual`, the token store,
-- the database and the connection (their answers and what they do to a state of the world, which hooks may
-- change too), the transport to a plugin, and what `InitRecord` makes of a JSON map.
--
-- Bounds and fuel. The loop of `FieldACL.Accessible` runs on fuel: one round more than there are entries
-- under the record type and the wildcard, which is enough, since each round uses up at least one entry.
-- All other loops are structural. The only arithmetic is on times and lengths, and there is no overflow in it
-- before the year 2262.
--
-- Not modelled: SQL and the store behind `skydb.Conn`, JSON, HTTP and websocket input and output, logging,
-- the timeout of a request, the sockets between broker and plugins, queries, subscriptions, push
-- notifications, the URLs of assets, configuration, and the saving of a user's record by `InjectUserIfPresent`.
pub mod Common
pub mod Utils
pub mod Skydb
pub mod Zmq
pub mod Plugin
pub mod Pubsub
pub mod Skyerr
pub mod Recordutil
pub mod Router
pub mod Preprocessor
pub mod Migration
pub mod Handler
pub mod Tests

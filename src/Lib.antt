-- ===== src/Lib.antt =====
-- A verification library for riposo, a JSON document store that implements the Kinto API.
--
-- What the program consists of: the HTTP API (pkg/api) turns a request into calls of three
-- transactions, one of a storage backend, one of a permission backend and one of a cache backend,
-- and ends all three together. The backends in memory (internal/conn/memory) keep Go maps behind
-- a mutex, and an undo log in each transaction, from which a rollback restores the maps. Objects
-- are named by paths (pkg/riposo/path.go).
--
-- Which file models which part:
--
--   Path: pkg/riposo/path.go. Path/Segments has Split, WithObjectID and Parent against the
--     segments of a path, Path/Norm has NormPath and JoinPath, Path/Ancestors has Traverse,
--     Path/Patterns has Match.
--   Set: pkg/util/set.go. Set/Members says which values a set holds, Set/Slices what Slice lists.
--   Undo: the undo log that the transactions of the backends in memory share.
--   Cache: internal/conn/memory/cache/cache.go, and ValidateKey of pkg/conn/cache/cache.go.
--     Cache/Calls has the calls of a transaction in sequence, Cache/Steps the branches of the
--     methods, Cache/Rollback what a rollback brings back, Cache/Reads the replies.
--   Locks: the mutex of a backend as a state, for all three backends; Cache/Locks,
--     Storage/Txn/Locks and Permission/Locks say who holds it.
--   Identity: IsValid of pkg/identity/identity.go.
--   Schema: the object of pkg/schema/object.go; Schema/Resources has resources and permission
--     sets, Schema/Patch the recursive merge of a patch.
--   Params: pkg/params, the filters, conditions, pagination conditions and limit; Params/Limits
--     has the bounds of the limit, Params/Parse the parameters of a whole query, and SplitFunc of
--     pkg/util/util.go.
--   Storage: internal/conn/memory/storage. Storage/Tree has the nodes and trees of store.go,
--     Storage/Backend the backend and its `delete`, Storage/Txn the transactions, Storage/Lists
--     ListAll and CountAll, Storage/Lists/Matches what all listed objects meet, Storage/Filters
--     filters.go; Storage/Filters/Pages says what a pagination token lets through.
--     Storage/Tree/Laws, Storage/Backend/Deletion and Storage/Backend/Unreached say what they
--     change object by object, and what they leave, Storage/Txn/Writes what Create and Update
--     write, Storage/Txn/Deletes what Delete takes away, Storage/Txn/Calls and
--     Storage/Txn/Rollback what a rollback brings back after a sequence of calls.
--   Permission: internal/conn/memory/permission/permission.go, the methods on users;
--     Permission/Aces has those on access control entries and on the permissions of paths.
--     Permission/Calls and Permission/Rollback, over Permission/Holds, say what a rollback brings
--     back, Permission/Grants and its children what calls change, Permission/Access which
--     principals a user has and, over Permission/Reaches, which paths principals reach.
--   Api: pkg/api. Api/Errors has the errors by their status, Api/Txn the transaction of all three
--     backends of txn.go, Api/Authz authz.go, and Api/Authz/Access says to whom Verify gives
--     access. Api/Model is the default model of model.go; Api/Model/Resources and
--     Api/Model/Deletes say what creating and deleting do to the storage and the permissions.
--     Api/Actions is actions.go with the callbacks of callbacks.go, Api/Conditions is
--     ctrl_cache.go. Api/Controller is ctrl.go: Api/Controller/Handlers has the handlers of one
--     object, Api/Controller/Bulk those of a collection, Api/Controller/Guards says whom
--     checkPermission lets pass, Api/Controller/Writes that the others change nothing, and
--     Api/Controller/Listing, over Api/Controller/Visible, which objects a list shows.
--   Group: internal/model/group/group.go; Group/Members says what `norm` keeps, Group/Changes who
--     has a group as a principal after an update.
--   Batch: internal/batch/batch.go and request.go; Batch/Order says how a batch is answered.
--   Server: internal/server/middleware.go, the transaction around a request; Server/Requests has
--     the states of the mutexes, Server/Outcomes, over Server/Responses, what is kept and what is
--     undone, Server/Backoff the headers that ask clients to wait.
--   Prelude: strings as lists of bytes, Go's maps as association lists, and lemmas on lists,
--     numbers and Booleans; Prelude/Effects has computations that change a state and may fail,
--     and keep the state where they fail, as a transaction does in Go, and Prelude/Values what
--     holds of the values they return. Tests of each part stand in its Tests module.
--
-- How state and operations correspond to the code: a struct is a record, a method is a function
-- of the same name that returns its result and the new state, and a method with a pointer
-- receiver that changes the struct returns it changed. A transaction holds its backend, which
-- nobody else changes while the mutex is taken. A nil pointer in an undo log is none. The order
-- of the entries of an association list stands for the order, left open by Go, in which a range
-- loop visits a map. A method that reads the clock takes the time as an argument, as a natural
-- number.
--
-- Bounds and fuel: only the loop of Traverse takes fuel; a length above that of the path is
-- enough, since a parent is shorter than its path, and its callers give it one more than the
-- length. The counter of the responses that ask for a backoff wraps around at 2 to the power of
-- 32.
--
-- Not modelled: the backends in PostgreSQL, whose behaviour is that of SQL statements; the
-- configuration, the command line and the plugins, which are opened by the operating system;
-- authentication methods and password hashes, of which the middleware takes the outcome as an
-- argument; the routes, which chi keeps; the recorder of the responses of a batch; the values
-- that callbacks share by the transaction, and what different callbacks share. Neither are the
-- registration of backends, Ping, goroutines, tickers, the factories of random IDs, and the JSON
-- of objects and sets. Third-party code (doublestar.PathMatch, gjson, encoding/json, net/http) is
-- an argument of the functions that call it, as are strconv and regexp where values of gjson meet
-- them. sort.Sort, which leaves the order of equal objects open, is an insertion sort.
pub mod Prelude
pub mod Path
pub mod Set
pub mod Undo
pub mod Locks
pub mod Cache
pub mod Identity
pub mod Schema
pub mod Params
pub mod Storage
pub mod Permission
pub mod Api
pub mod Group
pub mod Batch
pub mod Server

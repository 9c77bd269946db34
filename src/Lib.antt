-- ===== src/Lib.antt =====
-- howl-go: a web framework in Go with a document store. This library models parts of its core.
--
-- The program. A request passes the middleware chain (core/mw), is matched against the route table
-- (core/router), and is answered by a page or an endpoint. Pages, endpoints and document reads share
-- one kind of cache (core/cache). The document store (db) keeps JSON documents in a backend; db/memdb
-- is the backend in memory, and the definition of what the filter grammar means. What any of them
-- records about a query or a body goes through the redaction of core/observe.
--
-- Which file models which part:
--   Prelude      the shared names: Boolean tests on numbers, texts as lists of bytes with the functions
--                of Go's strings package that the source uses, association lists for maps.
--   Router       core/router/router.go. A page is an opaque component. Matching, Lookup and Tables hold
--                the proofs on Match, on Lookup and on the lists derived from the table.
--   Cache        core/cache/cache.go. The list's elements have addresses, as pointers do, and the index
--                maps a key to an address. Order and Invariant prove that index and list agree;
--                Refinement compares the store with a plain list of entries; Tiers is Try over any two
--                stores.
--   Redact       core/observe/redact.go. Words and Values are the rules on field names and on texts;
--                Secrecy, Bounds and Splitting the proofs.
--   Db.Value     decoded JSON documents. Numbers stand for float64, as a parameter.
--   Db.Filter    db/filter.go and db/memdb/filter.go; Logic and Sorting hold the proofs and `less`.
--   Db.Memdb     db/memdb/memdb.go: each method is a function of the map of documents, since a mutex
--                serialises them. Paths, Locking, Paging, Queries and SoftDelete hold the proofs.
--   Db.Diff      db/json.go: the update that a patch writes, and the projection of a document; Envelope
--                and Projection hold the proofs.
--   Db.Service   db/service.go: the operations of a service over any backend, whose state may move between
--                two calls; a document struct with its encoding and hooks is a parameter. Single holds
--                the writes of one document, Sets the set-wide ones; Memory gives Db.Memdb as such a
--                backend; Reads holds Get with the keys and the counters of the cache, Lists the other
--                reads; Patching, Writes, Reads.Keys, Reads.Cached and Transparent hold the proofs.
--   Db.Flight    db/flight.go: share as a relation of steps of its callers; Sharing and Liveness hold
--                the proofs.
--   Db.Coherence the cached reads and the writes of db/service.go as a relation of steps of their
--                callers, over one cache and one version; Freshness holds the proofs.
--   Db.Sql       what the filter compilers of the SQL backends share: an action that binds parameters
--                and gives a text. Compile holds the connectives and the operators of a field, Texts the
--                texts that both build; Actions, Marks and Replace the rules for proofs about them.
--   Db.Sqlite    db/sqlite/compile.go; Injection, Texts, Binding and Placeholders hold the
--                proofs.
--   Db.Pg        db/pg/compile.go; Injection holds the proof.
--   Db.Uuid      db/uuid.go; Ordering holds the proofs.
--   Mw           core/mw/mw.go: the chain and its guards; Mw.Recorder its response Writer; Mw.Csrf
--                core/mw/csrf.go; Mw.Cors core/mw/cors.go; Mw.Ratelimit core/mw/ratelimit.go;
--                Mw.ResponseCache core/mw/cache.go, over the stores of Cache; Mw.Proxy the choice of
--                core/mw/proxy.go. Guards, Once, Checks, Origins, Keys, Eviction, Victims, Complete,
--                Replay, Prefixes, Forwarding and Cookies hold the proofs.
--   Sse          core/sse/event.go: the frame of an event; Reading is a reader of the format and holds
--                the proof.
--   The modules named Tests run the theorems at concrete inputs.
--
-- Conventions. A text is the list of its bytes. A Go map is an association list, or for a JSON
-- object a list of fields, looked up by the first entry with the key. A loop is recursion on the
-- list that it runs over; the loop of Set that drops entries and the decimal printing of a count run
-- on fuel, which is the length of the list and the number itself, and each round takes one from it.
-- A patch tries three times, and the attempts left are its fuel, as in the source. The loop by which
-- the limiter makes room runs on fuel, one round for each key and one for the last test; that it ends
-- within it is proved. A filter is compiled by an action for each of its entries, and the actions are
-- run in the order of their keys, as the source walks the sorted keys of a map. Times are nanoseconds,
-- and the clock's reading is an argument. Errors are constructors of a reply.
--
-- Parameters. Code of the standard library whose result is not decided by a few lines is an
-- argument: encoding/json, strings.EqualFold, strings.TrimSpace, url.Parse, strconv.Itoa of a header and of a
-- placeholder, sha256, the random token, and the float64 operations of the store and of the
-- token bucket.
--
-- Not modelled: goroutines and mutexes beyond one step per method and the steps of Db.Flight and
-- Db.Coherence, contexts and deadlines, the session of an operation, reflection, HTTP itself, and
-- the parts of the program that the list above does not name, among them the statements that the
-- SQL backends run, the endpoints of core/api, the code generators and the browser runtime.
pub mod Cache
pub mod Db
pub mod Mw
pub mod Prelude
pub mod Redact
pub mod Router
pub mod Sse

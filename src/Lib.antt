-- ===== src/Lib.antt =====
-- Google Compute User Accounts: the daemon that serves users, groups and SSH keys of a virtual machine,
-- the client of its socket, and the plug-in for the name service switch.
--
-- The parts and the files that model them:
--
-- - accounts/accounts.go: `Accounts`. `User`, `Group`, the errors of a failed search with their texts,
--   and `AccountProvider` as a record of nine operations that pass a state on.
-- - store/store.go: `Store`. `Store/State` has the state: `CachingStore` is a heap of `cachedUser`
--   cells and four maps, of which the two maps of users hold pointers into the heap, since the source
--   shares each cell between them and writes through it. `Store/Refresh` is `updateAccounts`,
--   `Store/Keys` is `updateKeys`, `keysRequiringRefresh` and `updateCachedKeys`, `Store/Query` the
--   calls under the read lock, and `Store/Calls` is `New`, the rounds of `updateTask`, `UserByName` and
--   `AuthorizedKeys`. The proofs are in `Store/WellFormed` (the invariant), `Store/Step` (the daemon as
--   a step relation on its store), `Store/Cached` and `Store/Refreshed` (a refresh),
--   `Store/KeyWrites`, `Store/KeysDue`, `Store/KeyRound` and `Store/Panic` (the key updates),
--   `Store/Lookups` (the calls that wait), and `Store/Listings`, `Store/Members` and `Store/Groups`
--   (the calls that list). `Store/Workers` is the channel of `updateKeys` with its workers and its loop,
--   and `Store/RoundEnds` is about its end. `Store/Spec` is a specification of the store without pointers
--   and order, which `Store/Refines` is about. `Store/Index`, `Store/Updates`, `Store/Evolution` and
--   `Store/Provenance` are lemmas of theirs, and of the runs. `Store/Provider`
--   is the store in the place of the interface `AccountProvider`.
-- - The goroutines of store/store.go: `Tasks`. `Tasks/State` has the program points of `updateTask` and
--   of the calls of `UserByName`, with the calls that wait on the channel `updateWaiters`;
--   `Tasks/Step` is their interleaving as a step relation, and `Tasks/Keys` puts the calls of
--   `AuthorizedKeys` and what starts the key updates beside them. `Tasks/Queue` has lemmas on the
--   channel, and `Tasks/Answers`, `Tasks/Liveness`, `Tasks/Freshness`, `Tasks/Composed`,
--   `Tasks/Tries`, `Tasks/KeysGiven` and `Tasks/Provenance` are about the runs.
-- - server/server.go: `Server`. `Server/Request` is `parseName` and `parseID`, `Server/Marshal` writes
--   the lines, `Server/Respond` is `respond` with its nine handlers and `handle`, and `Server/Serve` is
--   the loop of `Serve` with the connections that it starts.
-- - server/client.go: `Client`. `Client/Send` is `send` and `checkHeader`, `Client/Unmarshal` reads the
--   lines, `Client/Calls` is the nine calls.
-- - The two ends of the socket together: `Protocol`. `Protocol/Safe` says which texts the line format
--   carries, `Protocol/Wire` joins `Client.send` to `Server.handle`, `Protocol/RoundTrip`,
--   `Protocol/Answers` and `Protocol/Calls` set the client against the provider behind the server,
--   `Protocol/Refinement` puts its nine calls together, `Protocol/Limits` is about what lies beyond the
--   limits, `Protocol/Received` about whatever else is received, and `Protocol/Serving` and
--   `Protocol/Handling` are about the connections of `Serve`.
-- - `EndToEnd` has the whole chain: the client, the socket, the server, and the store behind it.
-- - The daemon as a whole: `Service`. `Service/Asks` says which requests make the handler call what waits,
--   `Service/Step` interleaves the connections of `Serve` with the goroutines of `Tasks`, where a handler
--   waits for the calls that it makes, and `Service/Replies` and `Service/Keys` are about what the
--   connections and the clients get, `Service/ApiKeys` with the API client under the store.
--   `Service/Kept`, `Service/GoesOn` and `Service/Linked` say how a call and its connection keep in step, and
--   `Service/Waits` and `Service/Progress` are about how the run can go on from any state.
-- - nssplugin/utils.cc and nssplugin/libnss_google.cc, the plug-in in C++: `Nss`. `Nss/Outcome` has its
--   exceptions, `Nss/Strings` is `TokenizeString` and `ParseId`, `Nss/Buffer` is `BufferManager`,
--   `Nss/Convert` fills the structs, `Nss/Daemon` is `GetDaemonOutput` and `EntityList`, and `Nss/Calls`
--   is the functions of the switch. `Nss/Tokens`, `Nss/Ids`, `Nss/Entries`, `Nss/Held`,
--   `Nss/Vector` and `Nss/Groups` are about these, `Nss/Answers` and `Nss/Listing`
--   about the plug-in over the socket of the server.
-- - apiclient/apiclient.go: `ApiClient`. `ApiClient/Calls` is `New`, `instanceInfo`, `UsersAndGroups`
--   and `AuthorizedKeys`, with the answers of the metadata server and of the service as parameters;
--   `ApiClient/Instance` has the path of the instance, and `ApiClient/Daemon` puts the client under the
--   store. `Go/Paths` has what it uses of Go's packages `path` and `strings`.
-- - authorizedkeys/authorizedkeys.go: `AuthorizedKeysCommand`, the command over the client.
-- - gcua/gcua.go: `Gcua`. `Gcua/Main` is the configuration and `main`, with a panic of a goroutine among what
--   ends it, and `Gcua/Ending` how it ends.
-- - logger/logger.go: `Logger`. `Logger/Format` is what it uses of Go's package `fmt`,
--   `Logger/Process` the eight functions on the syslog, the standard error and the exit status of a
--   process, and `Logger/Fatal` the order of what they write.
-- - testbase/mockprovider.go and testbase/testbase.go: `Testbase`. `Testbase/Provider` is the mock
--   provider, `Testbase/Data` the sample users and groups, and `Testbase/Cases` the test cases and how
--   they are run. `Tests/Cases` runs the cases of server/server_test.go.
-- - `Go` has what the program uses of Go's standard library: `strings.Split` and `strings.Join`
--   (`Go/Strings`), `strconv` (`Go/Strconv`), maps (`Go/Map`) and paths (`Go/Paths`). `Base` has the
--   shared helpers.
--
-- A text is a list of bytes. A `uint32` is a number, and a conversion to it takes the remainder by
-- 2 ^ 32. A call that may fail returns a `Result`; of an error that only reaches the log or the text
-- of a message, the text is kept where the source writes it. A panic is `none` in an `Option`.
--
-- Concurrency: every write of the store is made under its lock, and counts as one step, so that a run
-- is a sequence of writes (`Store/Step`). A call that lets go of the lock takes what the other
-- goroutines write meanwhile as a parameter, any function on stores: `wait`, `between` and `during` of
-- `UserByName` and `AuthorizedKeys`. In `Tasks` these parameters are gone: the goroutines of `New`, and
-- any number of calls of `UserByName` and `AuthorizedKeys`, take their steps in any order. As in Go's
-- runtime, the calls that wait to send on a channel are received from in their order; and since the
-- timer of a `select` has only just been made when the `select` starts, it fires only if no send waits.
-- Where `range` goes over a map, its order is a parameter, any permutation of the
-- entries. The readings of the clock are parameters too. The clock of `Tasks` never goes back, and its timer,
-- made with the frequency of the refreshes, does not fire at once: this is so for a positive frequency, as
-- the one minute that gcua/gcua.go sets.
--
-- The views that the service replies with are taken as lists of views, and not of pointers: none of
-- them is nil, while the reply itself and the view of a user's keys may be.
--
-- Bounds: the server's buffer is 128 bytes, as in the source. Where the two ends of the socket are joined
-- (`Protocol/Wire`, `Nss/Answers`), a longer request is answered by a reset of the connection, which is
-- what closing a socket with unread data means for the reader. A number is written with at most 20
-- digits, as many as a number of 64 bits has. The loop of `TokenizeString` has fuel
-- for one round more than the text has bytes; a round but the last takes at least one byte, so that this
-- is enough. No other loop of the code needs a bound: each goes over a
-- list, and the loops without an end (`updateTask`, `Serve`) are step relations or go over the list of
-- the events that arrive.
--
-- Not modelled: the file of the socket (`os.Remove`, `os.Chmod`) and the connection to the
-- syslog, which are input and output; the parsing of the flags, `reflect.DeepEqual`, the text that
-- `debug.PrintStack` prints and the report of a panic, which are parameters; the lock between a reader and a writer, of which only the
-- order of the writes is kept, so that the reads of a cell that `AuthorizedKeys` makes without the lock
-- are each taken as one step; the calls of the system under `GetDaemonOutput` of the plug-in, which are a
-- parameter; and the packaging.
pub mod Base
pub mod Go
pub mod Accounts
pub mod Server
pub mod Client
pub mod Nss
pub mod Protocol
pub mod Store
pub mod ApiClient
pub mod AuthorizedKeysCommand
pub mod Tasks
pub mod Logger
pub mod EndToEnd
pub mod Service
pub mod Gcua
pub mod Testbase
pub mod Tests

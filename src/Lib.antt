-- ===== src/Lib.antt =====
-- Formal model of the Go library github.com/MicroOps-cn/fuck, a collection of packages for services.
-- Parts of the program and the files that model them:
--
-- buffer/limit.go: `LimitedWriter` passes at most N bytes to a writer. Buffer/Limit.antt has the
--   struct as a record, its options and `Write` (`write_through` is the body up to the test of
--   `ignoreError`). buffer/pre_reader.go: `preReader` reads some bytes ahead. Buffer/PreReader.antt
--   has `read_pre`, `close_pre` and the loop of `NewPreReader`. The wrapped `io.Writer` or
--   `io.Reader` is a function on a state, and Buffer/Io.antt states the documented contracts.
-- wrapper/queue.go: `RingQueue`, a bounded queue on the nodes of container/ring. Wrapper/Queue.antt
--   has all its operations, for values that are not a nil of an interface type, and
--   Wrapper/Queue/Ring.antt the nodes with their links. `RingQueue.put`,
--   `get` and `remove` are compared with a list that is the queue's content; for `remove`,
--   Wrapper/Queue/Circle.antt numbers the nodes round the ring, and Wrapper/Queue/Removal.antt follows
--   the loop. Wrapper/Queue/History.antt has sequences of operations.
-- wrapper/slice.go: `Filter`, `Map`, `Limit`, `GroupBy` and others: Wrapper/Slice.antt; `OneOrMore`:
--   Wrapper/Slice/OneOrMore.antt.
--   wrapper/map.go: Wrapper/Maps.antt; wrapper/func.go: Wrapper/Values.antt.
-- capacity/capacity.go and capacity/format.go: sizes in bytes such as 1MB512KB. Capacity/Print.antt
--   has `String` with its buffer of 32 bytes and `fmtInt`, Capacity/Parse.antt has `ParseCapacities`
--   with `leadingInt` and `leadingFraction`, Capacity/Codec.antt has `Set` and the JSON methods.
-- sets/sets.go: `Set`, a Go map from items to indices: Sets/Set.antt. A function that ranges over a
--   map takes the order in which the entries are met, which may be any permutation.
--   sets/array.go: `ArraySet`, with its full callback: Sets/ArraySet.antt.
-- crypto/aes.go: `AESCipher`: Crypto/Aes.antt, over Crypto/Cbc.antt (the CBC mode of crypto/cipher) and
--   Crypto/Padding.antt. safe/encrypt.go: Safe/Options.antt has the options and algorithms,
--   Safe/Encrypt.antt has `Encrypt`, `Decrypt` and the format `{CRYPT}$algo$args$text`. The block
--   ciphers, SHA-256 and base64 are parameters (`Libraries`), and so is the random source.
--   safe/hash.go: Safe/Hash.antt. safe/string.go: `String`, as `SafeString` in
--   Safe/SafeString.antt; the environment variable is an argument.
-- http/http.go: `JoinPath` and `GetRemoteAddr`: Http.antt; the tests of package net are parameters.
-- signals/signal.go: `Handler`, with a wait group and stop functions for each level: Signals.antt.
--   Signals/Stop.antt has `safeStop` among the other goroutines as a step relation. The clients
--   register their stop functions with it.
-- errors/errors.go: errors with a code and a status, `WithMessage`, `IsNotFount`, `Join`, `Errors`:
--   Errors.antt, where joined errors are a tree. A nacos request that finds nothing answers with an
--   error that has a code and a status.
-- log: the levels of log/flag.go and the writers and loggers made of them (Log/Level.antt,
--   Log/Writer.antt, Log/Logger.antt), the logger of a context (Log/Context.antt), log/ext.go
--   (Log/Ext.antt), the adapters (Log/Adapter.antt) and the logger that logs to several ones
--   (Log/Tee.antt). Log.antt has the items of a key-value list.
-- clients/nacos/client.go: the options, the requests with their login, and the watchdog, in files of
--   Clients/Nacos. The server is a function; the hash is a parameter.
-- clients/redis/redis.go: `ForeachSet`, the options and the texts of commands: Clients/Redis.antt and
--   its children. The server is a function on a state.
-- jwt/jwt.go: the configurations with their keys, the signing and the check of tokens: Jwt.antt,
--   Jwt/Json.antt (`UnmarshalJSON`), Jwt/RandomKey.antt and Jwt/Issuer.antt. golang-jwt and the
--   parsers of keys are parameters (`Library`).
-- generator/uuid.go: `NewUUID`: Generator.antt; the clock and the random UUID are arguments.
-- clients/storage/storage.go: the mode of a file from its text, and the registry of the types of
--   storage: Clients/Storage.antt. Its backends, clients/storage/s3/s3.go, oss/oss.go and fs/fs.go,
--   stand in Clients/Storage/S3.antt, Oss.antt and Fs.antt, over the buckets and keys of
--   Clients/Storage/Path.antt and the loop over pages of Clients/Storage/Listing.antt. The SDKs and
--   the file system are records of functions on a state.
-- clients/gorm: the options (Clients/Gorm/Options.antt), the opening of a connection, which makes a
--   schema that is missing (Clients/Gorm/Open.antt), the clients with the collector that lists them
--   (Clients/Gorm/Client.antt), and the logger (Clients/Gorm/Logger.antt). The servers are records of
--   functions on a state; the query of a DSN is a map that may be nil. clients/tls/tls.go: `NewTLSConfig`: Clients/Tls.antt. Clients/Stop.antt
--   puts the clients of gorm and redis together with the stop functions of signals.
-- conv/time.go: `Time` with its JSON forms: Conv/Time.antt. Floats, JSON strings and the layouts of
--   package time are parameters (`Library`).
-- Base.antt and its children hold what the parts share: lists indexed by native numbers, integers,
-- machine words, texts (Base/Text.antt), decimal numbers as `strconv.ParseInt` reads them
-- (Base/Decimal.antt), the equality of a comparable type (Base/Equality.antt), and
-- `do` for options.
--
-- Numbers. An int64 of Go that may be negative is ℤ, or a bit pattern below 2^64 with its
-- wrap-around written out (Base/Words.antt). Bytes are numbers, texts are lists of bytes.
--
-- Loops. `fmt_loop`, `parse_terms`, `fill`, `walk`, `remove_from`, `scan`, `is_not_fount_in`,
-- `scan_loop` and `list_loop` are given a number of rounds. `fmtInt` gets v rounds, and v / 10 < v; so
-- does `itoa`. The others answer with a value of its own kind when the rounds are used up.
-- `ParseCapacities` gets a round for each byte, and each term takes at least one byte.
-- `NewPreReader` gets maxLen + 1 rounds, one for each byte and one for the end of the stream, and one
-- for each read that gives nothing, of which the reader is to have a limited number. `List`,
-- `Do` and `Remove` get a round for each value and one more. The loop of `extLogger` gets a round for
-- each item and one more, and `IsNotFount` one for each error of the chain, or of the tree of
-- joined ones, and one more. `ForeachSet` may go on for ever, since its server may; the rounds are
-- an argument. So may `ListObject` of s3 and oss, where n rounds are enough for n pages. All other
-- functions recur on a list.
--
-- Concurrency. `RingQueue` holds its mutex in each operation, so an operation is one step; the test
-- for an empty queue that `Get` makes outside the mutex is taken as part of that step. `safeStop`,
-- the stop functions, the timers and the users of the wait groups take steps in any order. The
-- watchdog of nacos is taken as one goroutine after another: its unlocked accesses are not modelled.
--
-- Not modelled: float arithmetic (the fraction of a capacity is a parameter), the YAML methods and
-- hooks, which only call what is modelled, the bodies of objects in a storage, the tracing of requests,
-- the claims and the decoder of golang-jwt, `IPNet` of sets/sets.go, which is a form of package net, and
-- what is mostly calls of other libraries: clients/tracing, fs, conv/json.go and conv/url_query.go, and
-- the strings, templates and commands of wrapper.

pub mod Base
pub mod Buffer
pub mod Capacity
pub mod Wrapper
pub mod Sets
pub mod Clients
pub mod Log
pub mod Errors
pub mod Jwt
pub mod Signals
pub mod Crypto
pub mod Safe
pub mod Conv
pub mod Generator
pub mod Http

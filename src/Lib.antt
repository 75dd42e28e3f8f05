-- ===== src/Lib.antt =====
-- Gimme is a self-hosted CDN: an authenticated client uploads a package as a zip archive, the files
-- go to an object store under `name@version/path`, and anyone reads them, by an exact version or by a
-- partial one. This library models the Go code and proves what makes it correct.
--
-- Parts, and the files that model them:
--   * Base, Strings, Dict: numbers, texts as lists of bytes, the functions of Go's `strings` and
--     `path` that the program calls, and maps as lists of bindings with distinct keys.
--   * Errors: internal/errors. A message is a constructor with its arguments.
--   * Archive: internal/content/archive-keys.go. Archive/Limits is checkArchiveLimits, Archive/Keys is
--     objectKeys and archiveKeys; Archive/Nested, Archive/Laws and Archive/Kept hold the
--     proofs.
--   * Tokens: internal/auth/token-store.go. Tokens/Files and Tokens/FileStore are
--     internal/auth/file-token-store.go: the encrypted file, and the two maps over a heap of entries.
--     Tokens/Newest is the sort of List and Tokens/PurgeLoop the background loop with Close.
--     Tokens/Postgres is internal/auth/pg-token-store.go and Tokens/Redis
--     internal/auth/redis-token-store.go, each with its laws below it. Tokens/Contract is what
--     token-store.go asks of any store; Tokens/FileContract, Tokens/Postgres/Laws and
--     Tokens/Redis/Promised are about it and the three stores. Tokens/Loading and Tokens/Restart are about a
--     file store that is opened on the file of another, Tokens/Listing about List. The other files below Tokens hold
--     the file store's invariant, its steps and the states that are reached.
--   * Auth: internal/auth/auth-manager.go, over any token store; Auth/Laws and Auth/Revocation relate
--     it to the file store,
--     Auth/AnyStore to every store that keeps the contract, Auth/Sweeps to the purges. Auth/Oidc is
--     internal/auth/oidc-provider.go, with proofs in Auth/Oidc/Laws, Auth/Oidc/Handshake and
--     Auth/Oidc/Admission; Auth/Provider is the interface of internal/auth/auth-provider.go with both of
--     its implementations.
--   * Storage: internal/storage. Storage/Laws says what is relied on of the object store, and
--     Storage/Memory is a store in memory for the tests.
--   * Version: the versions of internal/content/content-service.go; Version/Aliases and
--     Version/Resolve hold the proofs.
--   * Content: internal/content/compression.go and integrity.go. Content/Proc is errgroup with its
--     goroutines, Content/Upload is CreatePackage, Content/Confined, Content/Atomic and
--     Content/Immutable its proofs. Content/Serve is GetFile and
--     DeletePackage over the interface of internal/cache; Content/Uncached and Content/Coherent hold
--     its proofs, Content/Cached what they rely on of a cache, and Content/MemoryCache is a cache in memory
--     for the tests. Content/Listing is
--     GetFiles; Content/Paging, Content/Pages and Content/Walk hold its proofs.
--   * Api: the functions and handlers of api/package-controller.go, api/conditional-requests.go,
--     api/content-negotiation.go and internal/archive_validator, with the request as values.
--     Api/Negotiated and Api/Printed are about the negotiation.
--     Api/Routes is the listing of a package and the dispatch of getPackage, Api/Admin is
--     api/admin-controller.go and api/health-controller.go, Api/Templates api/templates.go.
--   * Config: configs/config.go. Config/Viper is NewConfig, Config/Sizes parseSize, Config/Validate
--     validateConfig; Config/Usable and Config/Accept hold the proofs.
--   * Cache: internal/cache/redis-cache.go; Cache/Laws says what is relied on of SCAN and DEL, and
--     Cache/Manager is the cache as the content service calls it.
--   * Persistence: internal/persistence, the connections to Redis and PostgreSQL.
--   * Application: internal/application/application.go, what the server is built of and what it closes.
--     Application/Server is its routes, a request as one step on the state of the whole server (the
--     objects, the cache and the tokens); Application/Server/Guarded and Application/Server/Sessions are
--     about who may change that state.
--   * Publish: internal/publish and cmd/gimme-cli/main.go, the command that uploads a directory.
--     Publish/Push builds the request and reads the answer, Publish/Args orders the arguments, and
--     Publish/Cli is the command; Publish/ArgLaws and Publish/CliLaws hold the proofs.
--
-- A struct is a record, an operation takes the state and gives it back, an error is a value. The
-- state of the object store, of the cache and of the token stores are type parameters or records; the
-- libraries (zip, MIME tables, compressors, hashes, semver, gitignore, MinIO, Redis, PostgreSQL, viper,
-- oauth2, go-oidc, jwt, AES-GCM, JSON) and the clock are parameters, and what is relied on of them is
-- a record of laws. The tests instantiate them. Goroutines of an upload are processes whose calls a
-- schedule interleaves. A lookup or a listing of the tokens may change a store, so it gives the state
-- back too; PostgreSQL keeps times as its columns do, which is a parameter.
--
-- Every function here ends by the structure of its arguments, but for two loops over calls of a server,
-- which run on fuel. GetFiles lists the store again behind each scan: more fuel than there are objects
-- is enough. DeleteByPrefix of the Redis cache follows the cursor of SCAN: more fuel than the scan has
-- rounds is enough. Numbers of 64 bits are bounded where the source compares or adds them.
--
-- Not modelled: logging, histograms, tracing and timeouts; the wire format of HTTP and multipart; mutexes
-- and the periods of tickers; the check of gin's basic authentication and the text of the templates, which
-- are parameters or left out; static files, sockets, signals and the Prometheus registry; temporary files
-- of the command. Helpers of the tests are no part of the program.
pub mod Base
pub mod Strings
pub mod Errors
pub mod Archive
pub mod Dict
pub mod Tokens
pub mod Auth
pub mod Storage
pub mod Version
pub mod Content
pub mod Api
pub mod Config
pub mod Cache
pub mod Persistence
pub mod Application
pub mod Publish

-- ===== src/Lib.antt =====
-- MultiDesk: the coordination server of a remote-desktop system, after its Go code in server/.
--
-- Parts, and the files that model them:
--   Security, Security/Token: server/internal/security/token.go and turn.go. `sign` and `verify` are
--     `Sign` and `Verify`, `verify_device` and `turn_credential` the device proofs and relay
--     credentials. Base64, HMAC, Ed25519 and JSON are the fields of the record `Crypto`.
--   Platform: server/internal/platform. `Platform.State.Service` is the struct `Service`, whose maps
--     are association lists (`Dict`); `Wire` groups what notifications and audit events change.
--     Permissions, Wire (`notify`, `record`), Proof (`newChallenge`, `proof`), Session (`live`,
--     `visible`, `end`), Session/Handlers (the session handlers), Auth and Auth/Handlers (auth.go and
--     the account handlers), Devices, Admission (`expire`, rate limit), Ice (ice.go), Lists,
--     Signalling, and Step, which runs a request through rate limit, authentication and handler
--     as `Handler` does, and defines the states that the service reaches.
--   Platform/Server: the service with its store and its mailer. Email and Passwords and Mail
--     (email.go), TwoFactor (totp.go), Teams (teams.go), Workflows (workflows.go), Analysis (ai.go),
--     and Step, which adds their routes to those of the service.
--   Platform/Moves: an abstract specification of what requests do to devices and sessions, a
--     relation that forgets wire, accounts, tokens, challenges, store and mail.
--   Store: server/internal/store. Types and Interface are store.go, the interface `Store` being the
--     record `Backend` that the handlers of Platform/Server take. Memory is memory.go (every method of
--     `MemoryStore`), and Memory/Backend fills the interface with it. Postgres is postgres.go, with the
--     database as the record `Database`; Redis is redis.go, with the client as the record `Client`, and
--     Redis/Decorated puts it before another store, as the embedding in `RedisStore` does.
--   Start: server/cmd/server/main.go, with environment, network and database as the record `Outside`.
--   Dict: Go maps. Base: shared names, tests, lists, texts, integers.
--   Tests: concrete functions for the parameters, and the theorems applied to them.
--
-- How the model stands to the code:
--   - A handler of service.go holds the service's lock from its first read to its reply, so it is one
--     function of the state. `login` lets go of the lock while it compares the password, between the
--     look-up and the tokens, `auth` after its look-up, and `Handler` after the rate limit; these, and
--     the handlers that use the store, are taken as one step all the same. The clock
--     is read once for a request and is an argument, in nanoseconds since Go's zero time. Sums of times
--     take the place of differences, which on ℕ would stop at 0.
--   - The random source is a function of a counter of reads; a hash and the decoding of a request
--     are fields of `World` or data (`Decoded`).
--   - The order of an association list stands for the order in which Go visits the map.
--   - A panic is the reply `crashed`, with the state changed so far; the HTTP server recovers it.
--   - A counter of 64 bits wraps around in `next_u64`.
--   - No definition needs fuel: every loop runs over a list, or over the attempts that are left in
--     `attempt`, which the code bounds by three.
--   - What Redis does to a sorted set, and when a database changes what it has committed, are named
--     hypotheses of the theorems on them.
--
-- Not modelled: what the SQL statements do in the database, the pool of connections and the pauses
-- between attempts, the ticker of `ExpireLoop`, JSON and HTTP headers, the call of the external
-- analysis service, the I/O of the websockets, signals and the shutdown of the server, and the
-- source check under server/tools, which only walks files.
pub mod Base
pub mod Dict
pub mod Security
pub mod Platform
pub mod Store
pub mod Start
pub mod Tests

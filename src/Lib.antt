-- ===== src/Lib.antt =====
-- The racing game's backend: the Go code of the repository's internal/race,
-- internal/protoframing, internal/networking, internal/matchmaking, internal/auth,
-- internal/results, internal/racehistory, internal/leaderboard, internal/player,
-- internal/config, internal/api/router.go and cmd/game-server.
--
-- The program. A client sends length-prefixed Protobuf datagrams to the UDP server
-- (internal/networking/server.go), which unframes them (internal/protoframing/framing.go) and
-- hands them to the dispatcher (internal/networking/dispatcher.go). A join is checked by the
-- token verifier and registered with the race manager (internal/race/manager.go), which finds or
-- makes the race of the match; the session registry then binds the address to the player. An
-- input is queued on the player's race. Each race runs a loop of its own (Run), which drains its
-- queues, starts and ends the race, moves the cars (physics.go), counts checkpoints and laps,
-- and sends snapshots, which the broadcaster (internal/networking/broadcast.go) writes to every
-- subscribed address. The tokens that a join presents come from the API:
-- internal/matchmaking/service.go finds a match with room, token.go signs the token, and repo.go
-- keeps it in a table and consumes it. The game server (cmd/game-server/main.go) starts a
-- broadcaster for every race of the manager, feeds its subscriptions from the session registry,
-- and hands the results of a finished race to the results writer (internal/results/writer.go),
-- whose tables the race history (internal/racehistory) and the leaderboard
-- (internal/leaderboard) read. The accounts of the API are kept by internal/auth: registration,
-- login, guests, and the access token that its middleware asks of every other request.
--
-- Files and code:
--   Base and its children: lists, integers and maps over native numbers, Boolean tests, and lemmas.
--   Framing: Decode, Encode, framingEncode. Framing/RoundTrip: their laws.
--   Race/Floats: the floating-point operations, a parameter. Race/Model: the data of state.go,
--     track.go, events.go, snapshot.go and race.go.
--   Race/Physics: Step, clampF, wrapAngle. Race/Physics/Bounds, Numbers: their termination and bounds.
--   Race/Roster: race.go, track.go, buildWorldSnapshot. Race/Tick: applyInputLocked,
--     advanceTickLocked, allPlayersFinished. Race/Loop: Run and finishRace, one function per part of a
--     round. Race/Loop/Process: a race in its process, with the calls of other goroutines as steps.
--   Race/Checkpoints, Race/Invariant, Race/Frame, Race/Laps, Race/Circuits, Race/Live, Race/Finish,
--     Race/Frozen, Race/Returns: what holds of them.
--   Race/Manager: Manager's operations. Race/Manager/Registry, Joins, Cleanup: what they keep.
--   Networking/Sessions: SessionRegistry. Networking/Dispatcher: Handle, handleJoin, handleInput.
--   Networking/Subscriptions: Subscriptions and publish. Networking/Server: Serve.
--     Their children hold the theorems.
--   Matchmaking/Token, Repo, Service, Handler: token.go, repo.go, service.go, handler.go. Their children
--     hold the theorems. Admission: a token from the API to the dispatcher.
--   Auth: errors.go and password.go of internal/auth. Auth/Accounts: repo.go, over the tables users and
--     players. Auth/Access: jwt.go and middleware.go. Auth/Service: service.go. Auth/Handlers:
--     handlers.go. Auth/Service/Directory: the abstract view of the accounts, a book of e-mail
--     addresses and players, and the steps that the calls take on it. Their children hold the theorems.
--   Results: writer.go, statement by statement. Results/Rows, Stored, Retry: what it stores.
--   GameServer: persistRace, buildTrackLookup and broadcasterPool of cmd/game-server/main.go.
--     GameServer/Pool, Following: which races and addresses are served.
--   RaceHistory: repo.go of internal/racehistory. RaceHistory/Handler: handler.go. RaceHistory/Cursors,
--     Pages, Missing: the walk through the pages, and the race that is not there.
--   Leaderboard: repo.go of internal/leaderboard. Leaderboard/Handler: handler.go. Leaderboard/Groups,
--     Ranking, Personal: the groups of the queries and what the answers rank.
--   Player: player.go and handler.go of internal/player. Player/Kept, Registered: what a profile shows.
--   Api: NewRouter of internal/api/router.go. Api/Gating, Issued: who reaches a handler.
--   Config: Load of internal/config/config.go. Config/Validity: what it promises.
--   Examples: each theorem applied to small inputs.
--
-- State. A race, the variables of its loop, the manager, the registry and the subscriptions are
-- records with the source's fields, and each operation is a function to the new state. The lock
-- of a race makes each part of a round and each call of another goroutine one step, so a run is
-- a list of such steps in any order; the broadcaster's receive of a snapshot is a step too.
-- RemovePlayer is none: only the loop calls it. Calls fall between rounds; the parts of one
-- round are not interleaved with calls of others. A channel is the list of what waits in it,
-- with its capacity; a full channel drops. A pointer to a race is its ID, and the manager's heap
-- keeps every race that was made. A map is an association list, and a walk over a Go map takes
-- the order of its keys as an argument. Every reading of the clock, every new ID, the context
-- and the winner of a select are arguments too.
--
-- The database. A table is the list of its rows, and each statement is a function of the table
-- that it finds, with a Boolean that says that it fails. A SELECT of one row takes the oldest
-- that matches. A transaction is a function that returns the tables as they were unless all its
-- statements and its COMMIT succeed; a COMMIT that reports an error is taken not to have
-- happened. The constraints of the migrations that the code relies on are part of the INSERT:
-- primary keys, UNIQUE columns and references. Rows that ORDER BY does not tell apart stay in
-- the order of the table, and a query that filters ordered rows keeps their order. Groups stand
-- in the order in which the walk over the rows makes them.
--
-- Accounts. A text is the list of its bytes. New IDs, the salt, the random bytes, the clock and
-- the statements that fail are one record of the call. strings.EqualFold is written out for the
-- one text it is used with; strings.TrimSpace and ToLower, mail, bcrypt and jwt are parameters.
--
-- Numbers. IDs, addresses, times and counters are natural numbers; times are nanoseconds, and
-- time.Time.Sub saturates as in Go. The tick index wraps at 2^64. Lap and position counters are
-- not wrapped: they grow by one per lap. Floats are a parameter; what is used of IEEE 754 is the
-- record FloatLaws of Race/Physics/Bounds, and NumberLaws of Race/Physics/Numbers for what is no
-- NaN. A race's tick rate is taken to be at most 10^9, where Go's ticker starts at all.
--
-- Fuel. Only the two loops of wrapAngle run on fuel, and a result of none means that they have not
-- ended. Each unit is one test of a loop, so one unit more than there are turns is enough for one
-- loop; an angle that no turn changes uses up any fuel.
--
-- The HTTP API. A path is the list of its segments. The patterns of http.ServeMux, when two of
-- them conflict, and which one serves a request are those of its documentation. The address of a
-- client and the JSON of an answer are left out: an answer is its status, or the record that is
-- rendered.
--
-- Not modelled: logging, sockets and their deadlines, the catalogues (internal/cars,
-- internal/tracks, internal/garage), the process of the HTTP API (cmd/api) and its health
-- answer, the opening of the database (internal/database), main of the game server and the UDP
-- client, which are I/O around single queries and calls. The database, Protobuf, uuid.Parse,
-- HMAC, base64, JSON, bcrypt, JWT, the environment and the track lookup are parameters; the
-- conversion of cars to Protobuf is part of the one for Marshal; the dispatcher takes its token
-- verifier as one too.
mod Base
pub mod Auth
pub mod Framing
pub mod Race
pub mod Networking
pub mod Matchmaking
pub mod Results
pub mod GameServer
pub mod RaceHistory
pub mod Leaderboard
pub mod Admission
pub mod Player
pub mod Api
pub mod Config
pub mod Examples

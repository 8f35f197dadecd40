-- ===== src/Lib.antt =====
-- Hexagonal chess (Glinski's board of 91 hexagons) as a service: the rules of the game in
-- backend/chess, the state of a game in play in backend/model, the requests to it in
-- backend/service/gameplay.go with their transactions on redis in chessrepo.go, the queue of
-- players who look for a game in matchmaker.go, the end of a game in gameover.go, the messages in
-- which redis keeps a game in backend/model/serde.go, the timers of games in chesstimers.go and
-- the connected users in activeuser.go, the leaderboard in leaderboard.go, the brokers of
-- messages in backend/pubsub/actor.go, the consumers of streams in backend/queue, the messages of
-- a client in backend/network/websocket.go, the lobby of a tournament in tournamentupdater.go,
-- its pairings in tournamentmatcher.go and their transaction in tournamentadvancer.go. This
-- library models these; the rest of backend/model, network, database and queue and the rest of
-- backend/service stand around them, and are not modelled.
--
-- A game is a board with the lists of moves of the two colours. A move comes in as a request;
-- `NewValidMove` checks it against the list of the side to move, makes it, and computes both
-- lists anew with `InitPieceMoves`, which runs the finders of each piece over the board and fills
-- the tables of attacked hexagons as it goes. The state of a game has two seats, the game, an
-- undo that somebody asked for and whether it has ended; `CreateGame` makes it, and each request
-- is an `update` of the state with a `commit` that may add an event to a queue.
-- `UpdateChessStateTxn` reads the state from redis, runs the update, and writes it with the
-- events of the commit in one transaction, which fails if the state was written in between; it
-- tries five times. The bytes in redis are those of a message that `SerializeChessState` makes.
-- The event of a finished game goes to `HandleFinishedGame`, which writes the result with the
-- change of ratings, the history of the moves and the leaderboard, and may ask a tournament to
-- advance. The matchmaker of a game mode answers requests to begin, confirm and cancel one after
-- the other; it keeps a map of pending users with an index sorted by rating, and a list of
-- proposals. Users join and leave a tournament in its lobby until its creator begins the
-- countdown, which schedules an event to advance it. From then on a tournament is a list of
-- matches, which each event extends by a round, once for each key of an event; `NewFirstMatches`
-- pairs the participants, and `DoMatchmaking` pairs the next round from the results so far and
-- names the winner after the last.
--
-- Files, and the code they model:
-- - Prelude: tests on numbers, lists, the monad of panics, integers, and Go's binary search.
-- - Chess/Piece, Chess/Hex, Chess/Board: backend/chess/board.go (Piece, Hex, Walk, HasPawnMoved,
--   Board, FindKing). Chess/Start: its start positions.
-- - Chess/Moves: the finders of backend/chess/game.go, as functions from the attack tables to a
--   result and the tables after it. Below it Targets (what the loops compute), Rays, Finders,
--   Pawns (refinements to relations), Entries and Offers (the whole list).
-- - Chess/Hex/Axial, Chess/Hex/Range: walks as vectors, and checks over the whole board.
-- - Chess/Notation: backend/chess/types.go.
-- - Chess/Game: InitPieceMoves, Check, Stalemate, Checkmate, DeepCopy; Game/Ready its theorems;
--   Game/Play: NewMove, ValidateMove, NewValidMove, with Making, Validity and Turns; Game/Replay:
--   JumpMoveIndex, ApplyMoveSeq, with Redone and Restore.
-- - Chess/Fen: ParseFen and Fen, on ASCII texts, with Fen/Pieces, Printed and RoundTrip;
--   Fen/Json: MarshalJSON and UnmarshalJSON of a board. Chess/Board/Shape: which boards are
--   meant.
-- - Model/Enums: modes, colours and causes of backend/model, and their texts by
--   backend/utils/enum. Model/Serde: the messages of games of backend/model/serde.go, with
--   Serde/Boards and Serde/Reload.
-- - Gameplay/State: backend/model/chess.go (ChessState, Undo) and playerstate.go; State/Undo its
--   theorem.
-- - Gameplay/Service: JoinGame, MakeGameMove, AttemptGameUndo and EndGame of
--   backend/service/gameplay.go, each with a module of theorems: Service/Seats, Moving, Undoing
--   with TakenBack, Ending. Service/Creation: CreateGame of gamecreate.go. Service/Sane: states
--   whose history gives back their position, which requests keep as long as a state stays in
--   memory; Service/Kept and Service/Lives: what requests leave as it is, each on the state that
--   redis gives back.
-- - Gameplay/Repo: UpdateChessStateTxn of backend/service/chessrepo.go, over the bytes, the
--   update and the commit; Repo/Atomic its theorem.
-- - Gameover: results, ratings and queries of backend/service/gameover.go; Gameover/Handling:
--   HandleFinishedGame; Gameover/Again: its theorems.
-- - Matchmaker: the state and the requests of a matchmakerNode of backend/service/matchmaker.go;
--   Ticking: its tick; Channels: what requests do to channels; Index, Valid, Requests, Serving
--   and Lost: their theorems.
-- - Tournament/Scoring: score tables and winners; Tournament/Matcher: NewFirstMatches;
--   Matcher/Rounds: DoMatchmaking; the modules below them hold their theorems.
--   Tournament/Updates: backend/service/tournamentupdater.go on the row of one tournament, with
--   Updates/Lobby. Tournament/Advancing: the transaction of backend/service/tournamentadvancer.go
--   on the rows of one tournament; Advancing/Repeated, Started and Begun: its theorems;
--   Advancing/Games: AdvanceTournament with the games that it creates after the transaction.
-- - Pubsub: the brokers of backend/pubsub/actor.go, with Sending, Shards, Served (what a broker
--   goes through) and Passing.
-- - Cache: the commands of redis on sorted sets, as an interface, with a table for which the
--   documented effects hold (Cache/Table). Timers: backend/service/chesstimers.go with its script
--   and its trigger, and Timers/Polling. ActiveUsers: backend/service/activeuser.go, and
--   ActiveUsers/Seen.
-- - Consumers: backend/queue/consumers/streams.go and metrics.go, and Consumers/Delivery. Socket:
--   the messages of clients in backend/network/websocket.go, on Gameplay/Service, and
--   Socket/Answering. Leaderboard: backend/service/leaderboard.go, with Pages, Syncing and Ranks.
-- - Chess/Tests and Chess/Witnesses run the rules and apply the theorems at small positions;
--   Gameplay/Witnesses, Matchmaker/Witnesses, Gameover/Witnesses, Model/Serde/Witnesses,
--   Pubsub/Witnesses, Timers/Witnesses, ActiveUsers/Witnesses, Consumers/Witnesses,
--   Socket/Witnesses, Leaderboard/Witnesses and Tournament/Witnesses with
--   Tournament/Advancing/Witnesses do so for the rest.
--
-- Conventions. A panic (an index out of range, a failed assertion) is `none`; an error result is
-- a value. The uint32 coordinates keep their wrap-around. A nil slice is `none` and any other
-- `some`. Other integers are unbounded where the code only counts with them. The inner loop of
-- `findMovesByTraveling` runs on a fuel of 11, one more than the hexagons of the longest line
-- from a hexagon; that this is enough is a theorem. Swiss scores, which are multiples of a half,
-- are counted in halves. Ratings are float64: their operations are a parameter, `Ratings`. The
-- sort, random game identifiers and the order in which a Go map is visited are a parameter,
-- `Runtime`.
--
-- The ratings of the matchmaker are a parameter too, `Elos`, of which the theorems use that the
-- order is total and transitive (no rating is NaN), and that a range around a rating contains it.
-- Its channels are names; what a handler sends on them or closes is a list, which
-- Matchmaker/Channels performs on the open ones: a send on a closed channel, and a close of a
-- closed or a nil one, are panics there, and a send on an open one is taken to be received. Other
-- clients of redis are a list of operations before and between the commands of each attempt, and
-- connections do not fail. The binary search runs on one unit of fuel more than the number of
-- records, which a theorem shows to be enough.
--
-- The queries on the database and float64 are parameters of Gameover, `Querier` and `Floats`, of
-- which the theorems use what `IsQuerier` states and that zero is zero. A transaction is one
-- step, and queries fail only for want of a row. The rows of a tournament are a record, on which
-- a statement of SQL is a function. A message stands before its bytes, which generated code
-- makes; a text in it is a list of bytes, and its integers keep their values.
--
-- The sorted sets and streams of redis are parameters, `SortedSets`, `StreamGroups` and
-- `ScoreSets`, of which the theorems use what the `Documented` of each states; each holds of a
-- table in the tests; a script of redis runs as one step. A channel of Go is a name in a table,
-- with the messages that were sent and not yet received; a method that holds a lock is one step.
-- The messages of one reading of a stream are handled in parallel, which stands here as a
-- schedule of whole handlers; the theorem on it takes the schedule to be a permutation. The loop
-- of SyncLeaderboard runs on one unit of fuel more than there are rows, which a theorem shows to
-- be enough.
--
-- Not modelled: the event of the metadata of a game, the drawings of a board, the pin table
-- (never filled by the code), error messages, the services around the rules, and all input and
-- output.
pub mod Prelude
pub mod Chess
pub mod Model
pub mod Tournament
pub mod Gameplay
pub mod Matchmaker
pub mod Gameover
pub mod Pubsub
pub mod Cache
pub mod Timers
pub mod ActiveUsers
pub mod Consumers
pub mod Socket
pub mod Leaderboard

-- ===== src/Lib.antt =====
-- Verification library of NutBlaster, the signalling server of NutBlast (server/src).
--
-- The server introduces players of peer-to-peer games to each other. A client opens a WebSocket; its
-- session (server/src/session.rs) turns client messages into operations and sends them over a queue
-- to one thread, the event loop, which keeps all shared state: the peers (addresses with their count
-- of open sessions), the lobbies, the players, and an index of the lobbies of each game. The event
-- loop takes one operation at a time, so what the sessions do concurrently is, to it, a sequence of
-- operations in some order. What it has to tell the players goes to the mailboxes of their sessions.
-- A session holds a handle (server/src/blaster/mod.rs); when the session ends, it posts the removal
-- of its player, and the handle, as it is dropped, posts the close that gives its slot back.
--
-- Which file models which code:
--   Config            the configuration, server/src/blaster/mod.rs
--   Protocol          ids, metadata and validators of server/src/protocol/basic.rs (Protocol/Basic,
--                     Protocol/Metadata, Protocol/Validators), messages of
--                     server/src/protocol/payloads.rs (Protocol/Payloads); Protocol/Sound is about
--                     the validators
--   Tokens            TokenBucket of server/src/tokens.rs; Tokens/Laws is about it
--   Float             the f32 arithmetic that the buckets use, as an interface; Float/Exact is an
--                     instance of it in exact arithmetic
--   Blaster           Peer, Lobby, Player, BlasterOperation and their methods,
--                     server/src/blaster/mod.rs
--   Blaster/EventLoop recv of server/src/blaster/eventloop.rs and the loop of Blaster::new: State
--                     (the fields, insert_player, cap_ip, send_to_lobby), Sessions
--                     (IntroduceSession, CloseSession, Prune), Master (SetCapacity, SetListed,
--                     SetMaster, SetLobbyMeta, EraseLobbyMeta, KickPlayer), Fields (SetPlayerMeta,
--                     ErasePlayerMeta, Relay, AssemblePong), Rooms (ListLobbies, HostLobby,
--                     JoinLobby, RemovePlayer)
--   Blaster/Moves     the abstract view: each operation is a sequence of moves on rooms and players
--   Blaster/Invariant, Blaster/Bounds, Blaster/Caps, Blaster/Counts, Blaster/Rights,
--   Blaster/Metering, Blaster/Listing, Blaster/Joining, Blaster/Altering, Blaster/Leaving,
--   Blaster/Population
--                     about the event loop
--   Session           the state of Session and Session::send, server/src/session.rs;
--                     Session/Dispatch has handle_next_websocket_message and
--                     process_websocket_message, Session/Serve the loop of serve and what comes after
--                     it, and Session/Orders is about what a session may execute
--   Server            all together: the connections, the queue, the mailboxes and the event loop, from
--                     server/src/main.rs and from Blaster::introduce_session and SessionHandle of
--                     server/src/blaster/mod.rs; Server/Address has the client's address, real_ip of
--                     server/src/main.rs
--   Server/Posts, Server/Turns, Server/Invariant, Server/Owners, Server/Settled, Server/Faults
--                     about the whole server
--   Base              lists, maps and sets; Tests has concrete runs
--
-- How the code is read. A state is a record and an operation a function from state to state, with
-- what it sends and answers. An instant is a number of nanoseconds, and an operation's readings of
-- the clock and of the random generator are numbered in the order of the calls (Env), so that two
-- readings may differ. A HashMap is an association list and a HashSet a list of distinct elements;
-- where the order of a set shows, the walk over it is a parameter, of which only IsWalk is supposed:
-- it meets the elements and no others. An f32 is a value of the interface Float, whose laws hold of
-- IEEE arithmetic. A panic is `none`, after which the loop starts anew. All recursion is structural,
-- and there is no fuel.
--
-- A task of the server is what it does between two waits: the turn of a session up to its next
-- `.await` of an answer is one action, so is its continuation when the answer comes, and so is each
-- operation of the event loop. An interleaving of the tasks is then a list of actions (Action), and a
-- property of all lists is a property of all interleavings. A channel is a number; what is sent with
-- `try_send` goes to the mailbox of that number unless 120 messages stand in it. What serde makes of
-- a JSON text before the validators see it is a parameter (`read`), and so is the parser of addresses
-- (`parse`); no law is supposed of either.
--
-- What is supposed of a history: the random ids, which are u64 drawn by `rand::random`, are neither
-- null nor in use, which the code does not test, and the walks are IsWalk (IsLuckyHistory of the
-- server, IsAdmissible of the event loop alone). Where an id is drawn that is in use, HostLobby
-- replaces what stood under it; include/NutBlast.h has an error lobby_exists for that, which the server
-- never sends. For the event loop alone the arguments are supposed
-- to be validated as the protocol does it; for the server that is proved of the sessions.
--
-- Not modelled: logging, the reading of the configuration file, the binding of the socket, the HTTP
-- part of the handshake with its answers and the framing of WebSockets, which are calls of libraries;
-- what serde writes and reads; and the clients, which are not part of the server.
pub mod Base
pub mod Config
pub mod Protocol
pub mod Float
pub mod Tokens
pub mod Blaster
pub mod Session
pub mod Server
mod Tests

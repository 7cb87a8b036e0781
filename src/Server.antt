-- ===== src/Server.antt =====
-- The whole server: connections, each with its session, the queue of operations, the event loop, and
-- the messages on their way to the sessions; server/src/main.rs and the handles of
-- server/src/blaster/mod.rs. What the tasks do between two waits is one action, so an interleaving of
-- the tasks is a list of actions.
pub mod Address
pub mod Posts
pub mod Turns
pub mod Invariant
pub mod Owners
pub mod Settled
pub mod Faults
use nut_blast.Base.{
  ℕ, Bool, true, false, ◌+◌, Option, none, some, List, [], ◌∷◌, ◌++◌, map, String, ◌==◌, nat_eq,
  string_eq, Dict, lookup, insert, leb, if◌then◌else◌,
}
use nut_blast.Float.{Float}
use nut_blast.Config.{Config}
use nut_blast.Protocol.Payloads.{ClientMessage, ServerMessage}
use nut_blast.Blaster.{BlasterOperation, Reply, Env, IpAddr, Instant, TokioSender, Sent}
use nut_blast.Blaster.EventLoop.{Outcome, recv}
use nut_blast.Blaster.EventLoop.State.{BlasterEventLoop}
use nut_blast.Blaster.EventLoop.State as State
use nut_blast.Session.{Session, Turned, Awaited, Turn, done, waits}
use nut_blast.Session as Session
use nut_blast.Session.Dispatch.{Event, mail, handle_next_websocket_message, resume}
use nut_blast.Session.Serve.{Round, conclude}
use Address.{real_ip}

-- Where the task of a connection stands.
pub data Connection (F : Float) : Type 0 where
  -- `introduce_session` waits for its answer
  knocking : IpAddr → Connection F
  -- the task holds a `SessionHandle`, and the handshake goes on
  greeted : IpAddr → Connection F
  -- in the `select!` of the session
  serving : Session F → Connection F
  -- in an `.await` of the session
  waiting : Session F → Awaited → Connection F
  gone : Connection F

-- An operation in the queue, and the connection that holds the other end of its channel.
pub record Posted : Type 0 where
  pub op : BlasterOperation
  pub from : Option ℕ

pub record Server (F : Float) : Type 0 where
  pub loop : BlasterEventLoop F
  pub connections : Dict ℕ (Connection F)
  pub queue : List Posted
  pub mails : List Sent

-- What may happen next.
pub data Action : Type 0 where
  -- a connection comes in, with its address and the header X-Forwarded-For
  accept : ℕ → IpAddr → Option (List ℕ) → Action
  -- the handshake succeeds, or fails
  established refused : ℕ → (ℕ → Instant) → Action
  -- the timer for `Prune`
  tick : Action
  -- the session finds an event other than a message of the event loop
  handle : ℕ → (ℕ → Instant) → Event → Action
  -- the session finds the next message of the event loop
  receive : ℕ → (ℕ → Instant) → Action
  -- the event loop takes the next operation
  work : Env → Action

-- `QUEUE_CAP` of a session's mailbox.
abbrev pub queue_cap : ℕ
queue_cap = 120

abbrev pub unread : TokioSender → List Sent → ℕ
unread to [] = 0
unread to (m ∷ ms) = (if m.to == to then 1 else 0) + unread to ms

-- `try_send`: nothing goes into a full mailbox.
unfoldable pub deliver : List Sent → List Sent → List Sent
deliver mails [] = mails
deliver mails (m ∷ ms) =
    deliver (if leb queue_cap (unread m.to mails) then mails else mails ++ m ∷ []) ms

-- The first message of a mailbox, and what is left.
unfoldable pub next_mail : TokioSender → List Sent → Option (ServerMessage × List Sent)
next_mail to [] = none
next_mail to (m ∷ ms) =
    let rest = next_mail to ms in
    if m.to == to
    then some (m.msg, ms)
    else elim rest [ none ↦ none | some (msg, left) ↦ some (msg, m ∷ left) ]

abbrev pub send_off : BlasterOperation → Posted
send_off op = record { op = op; from = none }

-- The answer `Ok(true)`.
abbrev pub is_welcome : Option Reply → Bool
is_welcome (some (Reply.introduced welcome)) = welcome
is_welcome reply = false

-- `config.trust_reverse_proxy_xff.unwrap_or(false)`
abbrev pub trust_xff : Config → Bool
trust_xff config = elim config.trust_reverse_proxy_xff [ none ↦ false | some b ↦ b ]

module _ {F : Float} where
  -- The handle is dropped when the task ends.
  unfoldable pub leave : Round F → Connection F × List Posted
  leave r = if r.goes_on then (Connection.serving r.session, map send_off r.executed) else (
    Connection.gone,
    map send_off r.executed ++ send_off (BlasterOperation.close_session r.session.real_ip) ∷ [],
  )

  unfoldable pub proceed : ℕ → Turn F → Connection F × List Posted
  unfolding leave
  proceed id (done t) = leave (conclude t)
  proceed id (waits s op a) = (Connection.waiting s a, record { op = op; from = some id } ∷ [])

  -- An answer comes back to a connection.
  unfoldable pub answered : Option Reply → Connection F → Connection F × List Posted
  unfolding leave
  answered reply (Connection.knocking ip) =
      (if is_welcome reply then Connection.greeted ip else Connection.gone, [])
  answered reply (Connection.waiting s a) = leave (conclude (resume a reply s))
  answered reply c = (c, [])

  abbrev pub put : ℕ → Connection F × List Posted → Server F → Server F
  put id (c, posts) s = record s {
    connections = insert id c s.connections;
    queue = s.queue ++ posts;
  }

  -- The answer, if a connection waits for it.
  unfoldable pub give : Option ℕ → Option Reply → Server F → Server F
  unfolding answered
  give none reply s = s
  give (some id) reply s = elim (lookup id s.connections) [
    | none ↦ s
    | some c ↦ put id (answered reply c) s
  ]

  -- The event loop has taken an operation; where it panics, it starts anew and answers nothing.
  unfoldable pub worked : Config → Env → Posted → List Posted → Server F → Server F
  unfolding give deliver
  worked config env p rest s = elim (recv env p.op s.loop) [
    | none ↦ give p.from none (record s { loop = State.new config; queue = rest })
    | some o ↦
        give p.from (some o.reply)
          (record s { loop = o.state; queue = rest; mails = deliver s.mails o.sent })
  ]

  module _ (config : Config) (parse : List ℕ → Option IpAddr)
      (read : String → Option ClientMessage) where
    -- A session acts where its connection is in the `select!`.
    unfoldable pub serve : ℕ → (ℕ → Instant) → Event → Server F → Server F
    unfolding proceed
    serve id now event s = elim (lookup id s.connections) [
      | some (Connection.serving session) ↦
          put id (proceed id (handle_next_websocket_message read now event session)) s
      | _ ↦ s
    ]

    -- An action that cannot happen changes nothing.
    unfoldable pub act : Action → Server F → Server F
    unfolding worked serve next_mail
    act (Action.accept id local_address header) s = elim (lookup id s.connections) [
      | some c ↦ s
      | none ↦
          let ip = real_ip parse (trust_xff config) local_address header in
          put id
            (
              Connection.knocking ip,
              record { op = BlasterOperation.introduce_session ip; from = some id } ∷ [],
            )
            s
    ]
    act (Action.established id now) s = elim (lookup id s.connections) [
      | some (Connection.greeted ip) ↦ put id (Connection.serving (Session.new ip id now), []) s
      | _ ↦ s
    ]
    act (Action.refused id now) s = elim (lookup id s.connections) [
      | some (Connection.greeted ip) ↦
          put id (Connection.gone, send_off (BlasterOperation.close_session ip) ∷ []) s
      | _ ↦ s
    ]
    act Action.tick s = record s { queue = s.queue ++ send_off BlasterOperation.prune ∷ [] }
    act (Action.handle id now (mail msg)) s = s
    act (Action.handle id now event) s = serve id now event s
    act (Action.receive id now) s = elim (lookup id s.connections) [
      | some (Connection.serving session) ↦ elim (next_mail id s.mails) [
        | none ↦ s
        | some (msg, left) ↦ serve id now (mail msg) (record s { mails = left })
      ]
      | _ ↦ s
    ]
    act (Action.work env) s = elim s.queue [ [] ↦ s | p ∷ rest ↦ worked config env p rest s ]

    unfoldable pub history : List Action → Server F → Server F
    unfolding act
    history [] s = s
    history (a ∷ rest) s = history rest (act a s)

  -- `main`, before the first connection.
  unfoldable pub start : Config → Server F
  start config = record { loop = State.new config; connections = []; queue = []; mails = [] }

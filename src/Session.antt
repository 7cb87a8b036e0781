-- ===== src/Session.antt =====
-- A client's session, server/src/session.rs: its state, and the loop of `serve`. What a session does
-- between two waits is a value: the state after it, the operations given to the event loop, and the
-- messages written to the WebSocket.
pub mod Dispatch
pub mod Serve
pub mod Orders
use nut_blast.Base.{
  ℕ, Bool, true, false, Option, none, some, List, [], ◌∷◌, ◌++◌, String, Result, ok, err, is_some,
  not, if◌then◌else◌,
}
use nut_blast.Float.{Float}
use nut_blast.Protocol.Basic.{BasicId}
use nut_blast.Protocol.Payloads.{Kick, natural, ServerMessage}
use nut_blast.Tokens
use nut_blast.Tokens.{TokenBucket}
use nut_blast.Blaster.{IpAddr, Instant, TokioSender, BlasterOperation}

-- The session's own part of the state; the handles to the event loop, to the socket and to the
-- mailbox are what the functions below answer with and are given.
pub record Session (F : Float) : Type 0 where
  pub stop : Bool
  pub real_ip : IpAddr
  pub msg_sender : TokioSender
  pub pid : Option BasicId
  pub bye_reason : Kick
  pub payloads_budget : TokenBucket F
  pub relays_budget : TokenBucket F
  pub bandwidth_budget : TokenBucket F

-- What the session does up to the end of `handle_next_websocket_message`, and its result.
pub record Turned (F : Float) : Type 0 where
  pub session : Session F
  pub executed : List BlasterOperation
  pub written : List ServerMessage
  pub verdict : Result Kick (Unit {0})

-- What stands after an `.await` of the event loop's answer.
pub data Awaited : Type 0 where
  -- after `AssemblePong`
  pong : Awaited
  -- after `ListLobbies`
  listing : Awaited
  -- after `HostLobby` or `JoinLobby`
  seat : Awaited

-- The session comes to the end, or waits for the answer to an operation.
pub data Turn (F : Float) : Type 0 where
  done : Turned F → Turn F
  waits : Session F → BlasterOperation → Awaited → Turn F

module _ {F : Float} where
  -- `Session::new`; the clock is read for each bucket.
  unfoldable pub new : IpAddr → TokioSender → (ℕ → Instant) → Session F
  new real_ip msg_sender now = record {
    stop = false;
    payloads_budget = Tokens.new "payloads" 30 30 60 (now 0);
    relays_budget = Tokens.new "relays" 20 20 80 (now 1);
    bandwidth_budget = Tokens.new "kbps" 4096 4096 12288 (now 2);
    pid = none;
    bye_reason = natural "ok" "Graceful disconnection";
    real_ip = real_ip;
    msg_sender = msg_sender;
  }

  -- What `send` does to the state; it writes the message to the socket, whatever comes of that.
  unfoldable pub send : ServerMessage → Session F → Session F
  send msg s = elim msg [
    | ServerMessage.disconnected reason ↦ record s { bye_reason = reason; stop = true }
    | _ ↦ s
  ]

  -- The ways to return.
  abbrev pub settles : Session F → Turned F
  settles s = record { session = s; executed = []; written = []; verdict = ok tt }

  abbrev pub executes : BlasterOperation → Session F → Turned F
  executes op s = record { session = s; executed = op ∷ []; written = []; verdict = ok tt }

  abbrev pub writes : ServerMessage → Session F → Turned F
  writes msg s = record { session = send msg s; executed = []; written = msg ∷ []; verdict = ok tt }

  abbrev pub refuses : Kick → Session F → Turned F
  refuses reason s = record { session = s; executed = []; written = []; verdict = err reason }

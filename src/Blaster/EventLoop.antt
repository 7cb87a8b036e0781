-- ===== src/Blaster/EventLoop.antt =====
-- The event loop, server/src/blaster/eventloop.rs: `recv` dispatches an operation. A panic is
-- `none`; `run` is the loop of `Blaster::new` in server/src/blaster/mod.rs, which starts anew then.
pub mod State
pub mod Sessions
pub mod Master
pub mod Fields
pub mod Rooms
use nut_blast.Base.{Option, none, some, List, [], ◌∷◌, Result}
use nut_blast.Float.{Float}
use nut_blast.Config.{Config}
use nut_blast.Protocol.Basic.{BasicId}
use nut_blast.Protocol.Payloads.{Kick}
use nut_blast.Blaster.{BlasterOperation, Reply, Sent, Env}
use State.{BlasterEventLoop, new}
use Sessions.{introduce_session, close_session, prune}
use Master.{set_capacity, set_listed, set_master, set_lobby_meta, erase_lobby_meta, kick_player}
use Fields.{set_player_meta, erase_player_meta, relay, assemble_pong}
use Rooms.{list_lobbies, host_lobby, join_lobby, remove_player}

-- What an operation does: the state after it, what it sends and what it answers.
pub record Outcome (F : Float) : Type 0 where
  pub state : BlasterEventLoop F
  pub sent : List Sent
  pub reply : Reply

module _ {F : Float} where
  abbrev pub silent : BlasterEventLoop F × List Sent → Option (Outcome F)
  silent (s, sent) = some (record { state = s; sent = sent; reply = Reply.nothing })

  abbrev pub answer :
      Option (BlasterEventLoop F × List Sent × Result Kick BasicId) → Option (Outcome F)
  answer none = none
  answer (some (s, sent, r)) = some (record { state = s; sent = sent; reply = Reply.joined r })

  unfoldable pub recv : Env → BlasterOperation → BlasterEventLoop F → Option (Outcome F)
  recv env (BlasterOperation.assemble_pong pid) s =
      some (record { state = s; sent = []; reply = Reply.pong (assemble_pong env pid s) })
  recv env (BlasterOperation.set_capacity pid capacity) s = silent (set_capacity env pid capacity s)
  recv env (BlasterOperation.set_listed pid listed) s = silent (set_listed env pid listed s)
  recv env (BlasterOperation.set_master pid new_master) s = silent (set_master env pid new_master s)
  recv env (BlasterOperation.set_player_meta pid key value) s =
      silent (set_player_meta env pid key value s)
  recv env (BlasterOperation.erase_player_meta pid key) s = silent (erase_player_meta env pid key s)
  recv env (BlasterOperation.set_lobby_meta pid key value) s =
      silent (set_lobby_meta env pid key value s)
  recv env (BlasterOperation.erase_lobby_meta pid key) s = silent (erase_lobby_meta env pid key s)
  recv env (BlasterOperation.relay from to msg) s = silent (s, relay from to msg s)
  recv env (BlasterOperation.list_lobbies ip gid limit) s =
      let (s', r) = list_lobbies env ip gid limit s in
      some (record { state = s'; sent = []; reply = Reply.listing r })
  recv env (BlasterOperation.host_lobby ip gid lobby_meta capacity listed player_meta sender) s =
      answer (host_lobby env ip gid lobby_meta capacity listed player_meta sender s)
  recv env (BlasterOperation.join_lobby ip lid player_meta sender) s =
      answer (join_lobby env ip lid player_meta sender s)
  recv env (BlasterOperation.kick_player kicker kickee) s = silent (s, kick_player kicker kickee s)
  recv env (BlasterOperation.remove_player pid reason) s = silent (remove_player env pid reason s)
  recv env (BlasterOperation.introduce_session ip) s =
      let (s', r) = introduce_session ip (env.now 0) s in
      some (record { state = s'; sent = []; reply = Reply.introduced r })
  recv env BlasterOperation.prune s = silent (prune env s)
  recv env (BlasterOperation.close_session ip) s = silent (close_session ip (env.now 0) s, [])

  -- One round of the loop's thread.
  unfoldable pub turn : Config → Env → BlasterOperation → BlasterEventLoop F → BlasterEventLoop F
  turn config env op s = elim (recv env op s) [ none ↦ new config | some o ↦ o.state ]

  unfoldable pub run :
      Config → List (Env × BlasterOperation) → BlasterEventLoop F → BlasterEventLoop F
  run config [] s = s
  run config ((env, op) ∷ ops) s = run config ops (turn config env op s)

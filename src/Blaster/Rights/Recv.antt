-- ===== src/Blaster/Rights/Recv.antt =====
-- A player's own operations, as `recv` of server/src/blaster/eventloop.rs dispatches them, and
-- whom they reach.
use nut_blast.Base.{◌≡◌, String, Option, none, some, lookup, nat_eq}
use nut_blast.Float.{Float}
use nut_blast.Protocol.Basic.{BasicId}
use nut_blast.Protocol.Payloads.{ServerMessage, Kick}
use nut_blast.Blaster.{BlasterOperation, Env, Player}
use nut_blast.Blaster.EventLoop.{Outcome, recv}
use nut_blast.Blaster.EventLoop.State.{BlasterEventLoop}
use nut_blast.Blaster.Invariant.{IsValid, IsWalk}
use nut_blast.Blaster.Rights.Master.{ByMaster}
use nut_blast.Blaster.Rights.Isolation.{AllGoTo}
use nut_blast.Blaster.Rights.Heard.{
  set_capacity-AllGoTo, set_listed-AllGoTo, set_master-AllGoTo, set_lobby_meta-AllGoTo,
  erase_lobby_meta-AllGoTo, kick_player-AllGoTo, relay-AllGoTo, set_player_meta-AllGoTo,
  erase_player_meta-AllGoTo, remove_player-AllGoTo,
}

-- The operations that the session of player `pid` asks for once it is in a lobby.
pub data ByPlayer (pid : BasicId) : BlasterOperation → Type 0 where
  as_master : (op : BlasterOperation) → ByMaster pid op → ByPlayer pid op
  player_meta : (key value : String) → ByPlayer pid (BlasterOperation.set_player_meta pid key value)
  no_player_meta : (key : String) → ByPlayer pid (BlasterOperation.erase_player_meta pid key)
  message : (to : BasicId) (msg : ServerMessage) → ByPlayer pid (BlasterOperation.relay pid to msg)
  leaving : (reason : Kick) → ByPlayer pid (BlasterOperation.remove_player pid reason)
  ping : ByPlayer pid (BlasterOperation.assemble_pong pid)

module _ {F : Float} where
  -- What the operation sent reaches players of the lobby of `p`, by the channels of `s`.
  abbrev pub Heard : BlasterEventLoop F → Player F → Option (Outcome F) → Type 0
  Heard s p none = ⊥
  Heard s p (some o) = AllGoTo s.players p.lid o.sent

  -- In a well-formed state an operation of a player returns, and every message that it sends goes to
  -- the channel of a player of the same lobby.
  pub recv-Heard :
      (env : Env) (pid : BasicId) (p : Player F) (op : BlasterOperation) (s : BlasterEventLoop F)
      → IsWalk env
      → IsValid s
      → lookup pid s.players ≡ some p
      → ByPlayer pid op
      → Heard s p (recv env op s)
  unfolding recv
  recv-Heard env pid p _ s walk v there (as_master _ (ByMaster.capacity n)) =
      set_capacity-AllGoTo env walk pid p s v there n
  recv-Heard env pid p _ s walk v there (as_master _ (ByMaster.listed b)) =
      set_listed-AllGoTo env walk pid p s v there b
  recv-Heard env pid p _ s walk v there (as_master _ (ByMaster.master new_master)) =
      set_master-AllGoTo env walk pid p s v there new_master
  recv-Heard env pid p _ s walk v there (as_master _ (ByMaster.lobby_meta key value)) =
      set_lobby_meta-AllGoTo env walk pid p s v there key value
  recv-Heard env pid p _ s walk v there (as_master _ (ByMaster.no_lobby_meta key)) =
      erase_lobby_meta-AllGoTo env walk pid p s v there key
  recv-Heard env pid p _ s walk v there (as_master _ (ByMaster.kick kickee)) =
      kick_player-AllGoTo env walk pid p s v there kickee
  recv-Heard env pid p _ s walk v there (player_meta key value) =
      set_player_meta-AllGoTo env walk pid p s v there key value
  recv-Heard env pid p _ s walk v there (no_player_meta key) =
      erase_player_meta-AllGoTo env walk pid p s v there key
  recv-Heard env pid p _ s walk v there (message to msg) =
      relay-AllGoTo env walk pid p s v there to msg
  recv-Heard env pid p _ s walk v there (leaving reason) =
      remove_player-AllGoTo env walk pid p s v there reason
  recv-Heard env pid p _ s walk v there ping = tt

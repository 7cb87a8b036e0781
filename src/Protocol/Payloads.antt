-- ===== src/Protocol/Payloads.antt =====
-- What the server sends and what its parts pass on, server/src/protocol/payloads.rs.
use nut_blast.Base.{ℕ, Bool, List, String}
use nut_blast.Config.{IceServer}
use nut_blast.Protocol.Basic.{BasicId, GameId, LobbyId}
use nut_blast.Protocol.Metadata.{Metadata}

pub data Kick : Type 0 where
  natural violation : String → String → Kick

pub record LobbyListing : Type 0 where
  pub lid : BasicId
  pub players : ℕ
  pub max : ℕ
  pub metadata : Metadata

pub data ServerMessage : Type 0 where
  pong : List BasicId → ServerMessage
  -- pid, lid, birth, ice_servers
  connected : BasicId → BasicId → ℕ → List IceServer → ServerMessage
  disconnected : Kick → ServerMessage
  set_listed : Bool → ServerMessage
  set_capacity : ℕ → ServerMessage
  set_player_meta : BasicId → String → String → ServerMessage
  erase_player_meta : BasicId → String → ServerMessage
  set_lobby_meta : String → String → ServerMessage
  erase_lobby_meta : String → ServerMessage
  set_master : BasicId → ServerMessage
  -- pid, metadata, birth
  joined : BasicId → Metadata → ℕ → ServerMessage
  left : BasicId → Kick → ServerMessage
  -- from, candidate, mid
  candidate : BasicId → String → String → ServerMessage
  offer answer : BasicId → String → ServerMessage
  list : List LobbyListing → ServerMessage

-- A message of a client whose fields have been validated; a validated number or text stands as
-- itself. `host` has gid, capacity, listed, player and lobby metadata.
pub data ClientMessage : Type 0 where
  ping : ClientMessage
  list : GameId → ℕ → ClientMessage
  host : GameId → ℕ → Bool → Metadata → Metadata → ClientMessage
  join : LobbyId → Metadata → ClientMessage
  leave : String → String → ClientMessage
  set_listed : Bool → ClientMessage
  set_capacity : ℕ → ClientMessage
  set_player_metadata : String → String → ClientMessage
  erase_player_metadata : String → ClientMessage
  set_lobby_metadata : String → String → ClientMessage
  erase_lobby_metadata : String → ClientMessage
  -- to, candidate, mid
  pass_candidate : BasicId → String → String → ClientMessage
  pass_offer pass_answer : BasicId → String → ClientMessage
  kick : BasicId → ClientMessage
  set_master : BasicId → ClientMessage

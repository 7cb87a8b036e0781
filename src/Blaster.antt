-- ===== src/Blaster.antt =====
-- The signalling server's data, server/src/blaster/mod.rs. A channel to a session is a number, and
-- so is an address; both are only compared. An instant is a number of nanoseconds.
pub mod EventLoop
pub mod Caps
pub mod Moves
pub mod Invariant
pub mod Bounds
pub mod Rights
pub mod Listing
pub mod Leaving
pub mod Counts
pub mod Population
pub mod Metering
pub mod Joining
pub mod Altering
use nut_blast.Base.{
  ℕ, Bool, List, [], ◌∷◌, Option, String, Result, ok, err, length, leb, true, false,
}
use nut_blast.Float.{Float}
use nut_blast.Protocol.Basic.{BasicId, GameId, LobbyId}
use nut_blast.Protocol.Metadata.{Metadata}
use nut_blast.Protocol.Payloads.{Kick, LobbyListing, ServerMessage}
use nut_blast.Tokens.{TokenBucket}
use nut_blast.Tokens

abbrev pub IpAddr : Type 0
IpAddr = ℕ

abbrev pub Instant : Type 0
Instant = ℕ

abbrev pub TokioSender : Type 0
TokioSender = ℕ

pub data PeerSessionCount : Type 0 where
  some : ℕ → PeerSessionCount
  decaying : Instant → PeerSessionCount

pub record Peer (F : Float) : Type 0 where
  pub session_count : PeerSessionCount
  pub sessions_budget : TokenBucket F

pub record Lobby (F : Float) : Type 0 where
  pub players : List BasicId
  pub initiator : IpAddr
  pub master : BasicId
  pub metadata : Metadata
  pub capacity : ℕ
  pub listed : Bool
  pub idle_since : Option Instant
  pub created_at : Instant
  pub alterations_budget : TokenBucket F
  pub metadata_budget : TokenBucket F

pub record Player (F : Float) : Type 0 where
  pub lid : LobbyId
  pub metadata : Metadata
  pub sender : TokioSender
  pub birth : ℕ
  pub metadata_budget : TokenBucket F

-- A `try_send` on a session's channel.
pub record Sent : Type 0 where
  pub to : TokioSender
  pub msg : ServerMessage

-- The operations, without the channels of their replies.
pub data BlasterOperation : Type 0 where
  assemble_pong : BasicId → BlasterOperation
  set_capacity : BasicId → ℕ → BlasterOperation
  set_listed : BasicId → Bool → BlasterOperation
  -- initiator, new_master
  set_master : BasicId → BasicId → BlasterOperation
  set_player_meta : BasicId → String → String → BlasterOperation
  erase_player_meta : BasicId → String → BlasterOperation
  set_lobby_meta : BasicId → String → String → BlasterOperation
  erase_lobby_meta : BasicId → String → BlasterOperation
  -- from, to
  relay : BasicId → BasicId → ServerMessage → BlasterOperation
  -- ip, gid, limit
  list_lobbies : IpAddr → GameId → ℕ → BlasterOperation
  -- initiator, gid, lobby_metadata, capacity, listed, player_metadata, sender
  host_lobby : IpAddr → GameId → Metadata → ℕ → Bool → Metadata → TokioSender → BlasterOperation
  -- ip, lid, player_metadata, sender
  join_lobby : IpAddr → LobbyId → Metadata → TokioSender → BlasterOperation
  -- kicker, kickee
  kick_player : BasicId → BasicId → BlasterOperation
  remove_player : BasicId → Kick → BlasterOperation
  introduce_session : IpAddr → BlasterOperation
  prune : BlasterOperation
  close_session : IpAddr → BlasterOperation

-- What comes back on an operation's own channel.
pub data Reply : Type 0 where
  nothing : Reply
  listing : Result Kick (List LobbyListing) → Reply
  joined : Result Kick BasicId → Reply
  introduced : Bool → Reply
  pong : ServerMessage → Reply

-- What the world supplies while one operation runs: the readings of the clock and the random
-- numbers, in the order of the calls, and the order in which a hash set is walked.
pub record Env : Type 0 where
  pub now : ℕ → Instant
  pub random : ℕ → BasicId
  pub iter : List BasicId → List BasicId

module _ {F : Float} where
  -- `Peer::new`
  unfoldable pub new_peer : Instant → Peer F
  new_peer now = record {
    session_count = PeerSessionCount.some 1;
    sessions_budget = Tokens.new "sessions_per_ip" 2 3 4 now;
  }

  -- `Peer::session_count`
  unfoldable pub session_count : Peer F → ℕ
  session_count p = elim p.session_count [
    | PeerSessionCount.some count ↦ count
    | PeerSessionCount.decaying _ ↦ 0
  ]

  unfoldable pub is_full : Lobby F → Bool
  is_full l = leb l.capacity (length l.players)

  unfoldable pub send : Player F → ServerMessage → Sent
  send p msg = record { to = p.sender; msg = msg }

  unfoldable pub boot : Player F → Kick → Sent
  unfolding send
  boot p reason = send p (ServerMessage.disconnected reason)

  -- The bucket comes back as `try_take` leaves it, whether or not the tokens were there.
  unfoldable pub try_take_from_budget :
      Player F → TokenBucket F → ℕ → Instant → Bool × TokenBucket F × List Sent
  unfolding boot
  try_take_from_budget p budget count now =
      let (bucket, taken) = Tokens.try_take count now budget in
      elim taken [ ok _ ↦ (true, bucket, []) | err reason ↦ (false, bucket, boot p reason ∷ []) ]

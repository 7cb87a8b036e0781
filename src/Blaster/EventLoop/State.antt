-- ===== src/Blaster/EventLoop/State.antt =====
-- The event loop's state and the helpers of its operations: server/src/blaster/eventloop.rs up to
-- `recv`. An operation returns the state and what it has sent, in order.
use mathlib.Core.Option
use nut_blast.Base.{
  ℕ, ◌-◌, ◌*◌, ◌/◌, ◌^◌, Option, none, some, List, [], ◌∷◌, ◌++◌, map, Result, ok, err, ◌==◌,
  nat_eq, string_eq, Dict, lookup, insert, filter_map, add, length, leb, if◌then◌else◌,
}
use nut_blast.Float.{Float}
use nut_blast.Config.{Config}
use nut_blast.Protocol.Basic.{BasicId, GameId, LobbyId, lobby_id_eq}
use nut_blast.Protocol.Metadata.{Metadata}
use nut_blast.Protocol.Payloads.{Kick, violation, ServerMessage}
use nut_blast.Tokens
use nut_blast.Blaster.{IpAddr, Instant, TokioSender, Peer, Lobby, Player, Sent, Env, send}

abbrev pub sessions_per_ip_cap : ℕ
sessions_per_ip_cap = 4

abbrev pub global_sessions_cap : ℕ
global_sessions_cap = 1024

abbrev pub global_peers_cap : ℕ
global_peers_cap = 512

-- `Duration::from_secs(60)`, in nanoseconds.
abbrev pub session_idle_timeout : ℕ
session_idle_timeout = 60 * 10 ^ 9

abbrev pub lobby_listing_cap : ℕ
lobby_listing_cap = 32

abbrev pub listed_lobbies_per_gid : ℕ
listed_lobbies_per_gid = 32

abbrev pub lobbies_per_ip : ℕ
lobbies_per_ip = 4

abbrev pub chud_threshold : ℕ
chud_threshold = 2

-- `Duration::from_mins(3)`
abbrev pub chud_lobby_timeout : ℕ
chud_lobby_timeout = 180 * 10 ^ 9

pub record BlasterEventLoop (F : Float) : Type 0 where
  pub gid_lobbies : Dict GameId (List BasicId)
  pub lobbies : Dict LobbyId (Lobby F)
  pub players : Dict BasicId (Player F)
  pub peers : Dict IpAddr (Peer F)
  pub config : Config

-- The error of a spent bucket, and of an unknown address.
abbrev pub sessions_per_ip_error : Kick
sessions_per_ip_error = violation "rate_limited" "Sessions per IP cap"

module _ {F : Float} where
  -- `BlasterEventLoop::new`
  unfoldable pub new : Config → BlasterEventLoop F
  new config = record { gid_lobbies = []; lobbies = []; players = []; peers = []; config = config }

  -- A write through `get_mut`, or `insert`.
  abbrev pub put_lobby : LobbyId → Lobby F → BlasterEventLoop F → BlasterEventLoop F
  put_lobby lid lobby s = record s { lobbies = insert lid lobby s.lobbies }

  abbrev pub put_player : BasicId → Player F → BlasterEventLoop F → BlasterEventLoop F
  put_player pid player s = record s { players = insert pid player s.players }

  unfoldable pub send_to_lobby : Env → LobbyId → ServerMessage → BlasterEventLoop F → List Sent
  send_to_lobby env lid msg s = elim (lookup lid s.lobbies) [
    | none ↦ []
    | some lobby ↦
        filter_map (λ id. Option.map (λ p. send p msg) (lookup id s.players))
          (env.iter lobby.players)
  ]

  -- The lobby as `insert_player` leaves it.
  unfoldable pub enter : BasicId → Lobby F → Lobby F
  enter pid lobby =
      let players = add pid lobby.players in
      record lobby {
        players = players;
        idle_since = if leb chud_threshold (length players) then none else lobby.idle_since;
      }

  -- What a member and the new player are told of each other.
  unfoldable pub introduce : Player F → BasicId → Dict BasicId (Player F) → BasicId → List Sent
  introduce player pid players other_id = elim (lookup other_id players) [
    | none ↦ []
    | some other ↦
        send player (ServerMessage.joined other_id other.metadata other.birth)
        ∷ send other (ServerMessage.joined pid player.metadata player.birth)
        ∷ []
  ]

  abbrev pub introduce_all : Player F → BasicId → Dict BasicId (Player F) → List BasicId → List Sent
  introduce_all player pid players [] = []
  introduce_all player pid players (id ∷ ids) =
      introduce player pid players id ++ introduce_all player pid players ids

  -- What a new player is told, `lobby` being the lobby before the player came in.
  unfoldable pub welcome : Env → Player F → BasicId → Lobby F → BlasterEventLoop F → List Sent
  welcome env player pid lobby s =
      send player (ServerMessage.set_listed lobby.listed)
        ∷ send player (ServerMessage.set_capacity lobby.capacity)
        ∷ map (λ e. send player (ServerMessage.set_lobby_meta e.0 e.1)) lobby.metadata
      ++ (send player (ServerMessage.connected pid player.lid.lid player.birth s.config.ice_servers)
            ∷ introduce_all player pid s.players (env.iter lobby.players)
          ++ (send player (ServerMessage.set_master lobby.master) ∷ []))

  unfoldable pub new_player :
      LobbyId → Lobby F → Metadata → TokioSender → Instant → Instant → Player F
  new_player lid lobby player_metadata sender now bucket_now = record {
    lid = lid;
    metadata = player_metadata;
    sender = sender;
    birth = (now - lobby.created_at) / 10 ^ 6;
    metadata_budget = Tokens.new_metadata "player_metadata" bucket_now;
  }

  -- The two writes of `insert_player`.
  unfoldable pub admit :
      BasicId → Player F → LobbyId → Lobby F → BlasterEventLoop F → BlasterEventLoop F
  admit pid player lid lobby s = put_player pid player (put_lobby lid (enter pid lobby) s)

  -- `unreachable!()` is `none`; the lookup of the player right after its insertion finds it, so the
  -- second one has no branch here. The clock is read for the birth and for the bucket.
  unfoldable pub insert_player :
      Env
      → TokioSender
      → BasicId
      → LobbyId
      → Metadata
      → Instant
      → Instant
      → BlasterEventLoop F
      → Option (BlasterEventLoop F × List Sent)
  insert_player env sender pid lid player_metadata now bucket_now s = elim (lookup lid s.lobbies) [
    | none ↦ none
    | some lobby ↦
        let player = new_player lid lobby player_metadata sender now bucket_now in
        let s' = admit pid player lid lobby s in some (s', welcome env player pid lobby s')
  ]

  unfoldable pub cap_ip :
      IpAddr → Instant → BlasterEventLoop F → BlasterEventLoop F × Result Kick (Unit {0})
  cap_ip ip now s = elim (lookup ip s.peers) [
    | none ↦ (s, err sessions_per_ip_error)
    | some peer ↦
        let (bucket, taken) = Tokens.try_take 1 now peer.sessions_budget in
        (
          record s { peers = insert ip (record peer { sessions_budget = bucket }) s.peers },
          elim taken [ ok _ ↦ ok tt | err _ ↦ err sessions_per_ip_error ],
        )
  ]

  -- The initiator and the lobby, where the initiator is the lobby's master.
  unfoldable pub mastered : BasicId → BlasterEventLoop F → Option (Player F × Lobby F)
  mastered initiator s = elim (lookup initiator s.players) [
    | none ↦ none
    | some player ↦ elim (lookup player.lid s.lobbies) [
      | none ↦ none
      | some lobby ↦ if lobby.master == initiator then some (player, lobby) else none
    ]
  ]

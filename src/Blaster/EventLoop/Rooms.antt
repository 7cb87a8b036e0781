-- ===== src/Blaster/EventLoop/Rooms.antt =====
-- Lobbies come, fill, empty and go, server/src/blaster/eventloop.rs: `ListLobbies`, `HostLobby`,
-- `JoinLobby`, `RemovePlayer`.
use nut_blast.Base.{
  ℕ, Bool, not, ◌&&◌, ◌||◌, Option, none, some, List, [], ◌∷◌, ◌++◌, Result, ok, err, ◌==◌, nat_eq,
  string_eq, Dict, lookup, insert, erase, filter, filter_map, any, take, head?, add, remove, length,
  leb, ltb, if◌then◌else◌,
}
use nut_blast.Float.{Float}
use nut_blast.Protocol.Basic.{BasicId, GameId, LobbyId, null, is_null, lobby_id_eq}
use nut_blast.Protocol.Metadata.{Metadata, truncated}
use nut_blast.Protocol.Payloads.{Kick, violation, LobbyListing, ServerMessage}
use nut_blast.Tokens
use nut_blast.Blaster.{IpAddr, TokioSender, Lobby, Sent, Env, is_full, send}
use nut_blast.Blaster.EventLoop.State.{
  BlasterEventLoop, lobby_listing_cap, listed_lobbies_per_gid, lobbies_per_ip, chud_threshold,
  put_lobby, send_to_lobby, insert_player, cap_ip,
}

abbrev pub lobby_not_found : Kick
lobby_not_found = violation "lobby_not_found" "Lobby not found"

abbrev pub lobby_full : Kick
lobby_full = violation "lobby_full" "Lobby is full"

abbrev pub ip_limit : Kick
ip_limit = violation "rate_limited" "Lobbies per IP limit"

abbrev pub gid_limit : Kick
gid_limit = violation "rate_limited" "Lobbies per GID limit"

-- `limit.clamp(1, LOBBY_LISTING_CAP)`
unfoldable pub clamp_limit : ℕ → ℕ
clamp_limit limit =
    if ltb limit 1 then 1 else if ltb lobby_listing_cap limit then lobby_listing_cap else limit

abbrev pub lobby_id : GameId → BasicId → LobbyId
lobby_id gid lid = record { lid = lid; gid = gid }

-- `unwrap_or_else(HashSet::new)`
abbrev pub or_empty : Option (List BasicId) → List BasicId
or_empty none = []
or_empty (some set) = set

-- The index without a lobby; a set that is empty then goes too.
unfoldable pub remove_from_index : LobbyId → Dict GameId (List BasicId) → Dict GameId (List BasicId)
remove_from_index lid gid_lobbies = elim (lookup lid.gid gid_lobbies) [
  | none ↦ gid_lobbies
  | some set ↦
      let set' = remove lid.lid set in
      if leb (length set') 0 then erase lid.gid gid_lobbies else insert lid.gid set' gid_lobbies
]

module _ {F : Float} where
  -- The ids that the index has for a game.
  unfoldable pub indexed : GameId → BlasterEventLoop F → List BasicId
  indexed gid s = or_empty (lookup gid s.gid_lobbies)

  -- A lobby's line in the listing, where it is listed and has room.
  unfoldable pub listing_of : BlasterEventLoop F → GameId → BasicId → Option LobbyListing
  listing_of s gid lid = elim (lookup (lobby_id gid lid) s.lobbies) [
    | none ↦ none
    | some lobby ↦
        if lobby.listed && not (is_full lobby)
        then some (record {
          lid = lid;
          players = length lobby.players;
          max = lobby.capacity;
          metadata = truncated lobby.metadata;
        })
        else none
  ]

  unfoldable pub list_lobbies :
      Env
      → IpAddr
      → GameId
      → ℕ
      → BlasterEventLoop F
      → BlasterEventLoop F × Result Kick (List LobbyListing)
  list_lobbies env ip gid limit s =
      let (s', allowed) = cap_ip ip (env.now 0) s in
      (
        s',
        elim allowed [
          | err reason ↦ err reason
          | ok _ ↦ ok (
              take (clamp_limit limit) (filter_map (listing_of s' gid) (env.iter (indexed gid s'))))
        ],
      )

  -- The lobbies that an address has opened.
  unfoldable pub opened_by : IpAddr → Dict LobbyId (Lobby F) → List (LobbyId × Lobby F)
  opened_by ip = filter (λ e. e.1.initiator == ip)

  -- How many lobbies of a game are listed.
  unfoldable pub listed_count : GameId → BlasterEventLoop F → ℕ
  listed_count gid s = length (
      filter (λ (l : Lobby F). l.listed)
        (filter_map (λ id. lookup (lobby_id gid id) s.lobbies) (indexed gid s)))

  -- Why a new lobby is refused, if it is.
  unfoldable pub host_refusal : IpAddr → GameId → Bool → BlasterEventLoop F → Option Kick
  host_refusal initiator gid listed s =
      let own = opened_by initiator s.lobbies in
      if listed && any (λ (e : LobbyId × Lobby F). e.1.listed) own
        || leb lobbies_per_ip (length own)
      then some ip_limit
      else if listed && leb listed_lobbies_per_gid (listed_count gid s)
      then some gid_limit
      else none

  -- The lobby of a host who is not in it yet; the clock is read from its reading 1 on.
  unfoldable pub new_lobby : Env → IpAddr → Metadata → ℕ → Bool → BasicId → Lobby F
  new_lobby env initiator metadata capacity listed pid = record {
    players = [];
    initiator = initiator;
    master = pid;
    metadata = metadata;
    capacity = capacity;
    listed = listed;
    idle_since = some (env.now 1);
    created_at = env.now 1;
    alterations_budget = Tokens.new "lobby_alterations" 1 2 2 (env.now 2);
    metadata_budget = Tokens.new_metadata "lobby_metadata" (env.now 3);
  }

  unfoldable pub add_to_index : LobbyId → BlasterEventLoop F → BlasterEventLoop F
  add_to_index lid s = record s {
    gid_lobbies = insert lid.gid (add lid.lid (indexed lid.gid s)) s.gid_lobbies;
  }

  -- `none` is a panic.
  unfoldable pub host_lobby :
      Env
      → IpAddr
      → GameId
      → Metadata
      → ℕ
      → Bool
      → Metadata
      → TokioSender
      → BlasterEventLoop F
      → Option (BlasterEventLoop F × List Sent × Result Kick BasicId)
  host_lobby env initiator gid lobby_metadata capacity listed player_metadata sender s =
      let (s₁, allowed) = cap_ip initiator (env.now 0) s in
      elim allowed [
        | err reason ↦ some (s₁, [], err reason)
        | ok _ ↦ elim (host_refusal initiator gid listed s₁) [
          | some reason ↦ some (s₁, [], err reason)
          | none ↦
              let lid = lobby_id gid (env.random 0) in
              let pid = env.random 1 in
              let lobby = new_lobby env initiator lobby_metadata capacity listed pid in
              let s₂ = add_to_index lid (put_lobby lid lobby s₁) in
              elim (insert_player env sender pid lid player_metadata (env.now 4) (env.now 5) s₂) [
                | none ↦ none
                | some (s₃, sent) ↦ some (s₃, sent, ok pid)
              ]
        ]
      ]

  unfoldable pub join_lobby :
      Env
      → IpAddr
      → LobbyId
      → Metadata
      → TokioSender
      → BlasterEventLoop F
      → Option (BlasterEventLoop F × List Sent × Result Kick BasicId)
  join_lobby env ip lid player_metadata sender s =
      let (s₁, allowed) = cap_ip ip (env.now 0) s in
      elim allowed [
        | err reason ↦ some (s₁, [], err reason)
        | ok _ ↦ elim (lookup lid s₁.lobbies) [
          | none ↦ some (s₁, [], err lobby_not_found)
          | some lobby ↦
              if is_full lobby
              then some (s₁, [], err lobby_full)
              else (let pid = env.random 0 in
                  elim (insert_player env sender pid lid player_metadata (env.now 1) (env.now 2)
                    s₁) [ none ↦ none | some (s₂, sent) ↦ some (s₂, sent, ok pid) ])
        ]
      ]

  -- The lobby as `RemovePlayer` leaves it; a new master is the first that the set's walk meets.
  unfoldable pub leave : Env → BasicId → Lobby F → Lobby F
  leave env pid lobby =
      let players = remove pid lobby.players in
      record lobby {
        players = players;
        idle_since = elim lobby.idle_since [
          | some since ↦ some since
          | none ↦ if ltb (length players) chud_threshold then some (env.now 0) else none
        ];
        master =
            if pid == lobby.master
            then elim (head? (env.iter players)) [ some new ↦ new | none ↦ null ]
            else lobby.master;
      }

  unfoldable pub remove_player :
      Env → BasicId → Kick → BlasterEventLoop F → BlasterEventLoop F × List Sent
  remove_player env pid reason s = elim (lookup pid s.players) [
    | none ↦ (s, [])
    | some player ↦
        let s₁ = record s { players = erase pid s.players } in
        let bye = send player (ServerMessage.disconnected reason) in
        elim (lookup player.lid s.lobbies) [
          | none ↦ (s₁, bye ∷ [])
          | some lobby ↦
              let lobby' = leave env pid lobby in
              let s₂ = put_lobby player.lid lobby' s₁ in
              if is_null lobby'.master
              then (
                record s₁ {
                  gid_lobbies = remove_from_index player.lid s.gid_lobbies;
                  lobbies = erase player.lid (insert player.lid lobby' s.lobbies);
                },
                bye ∷ [],
              )
              else (
                s₂,
                bye
                    ∷ (send_to_lobby env player.lid (ServerMessage.left pid reason) s₂
                        ++ send_to_lobby env player.lid (ServerMessage.set_master lobby'.master)
                            s₂),
              )
        ]
  ]

-- ===== src/Blaster/Invariant.antt =====
-- Well-formed states of the event loop of server/src/blaster/eventloop.rs.
pub mod Writes
pub mod Local
pub mod Arrivals
pub mod Departures
pub mod Reach
pub mod Run
use nut_blast.Base.{
  ℕ, ◌≡◌, ◌≢◌, Bool, true, false, Option, none, some, List, [], lookup, contains, length, ltb,
  is_some, IsSetList, Dict, nat_eq, string_eq,
}
use nut_blast.Float.{Float}
use nut_blast.Protocol.Basic.{BasicId, GameId, LobbyId, null, lobby_id_eq}
use nut_blast.Blaster.{Lobby, Player, Env}
use nut_blast.Blaster.EventLoop.State.{BlasterEventLoop, chud_threshold, new}
use nut_blast.Blaster.EventLoop.Rooms.{indexed, lobby_id}
use nut_blast.Config.{Config}

module _ {F : Float} where
  -- The master is a player, no player stands twice, and the lobby is idle exactly while it has
  -- too few of them.
  pub record LobbyIsValid (l : Lobby F) : Type 0 where
    pub master : contains l.master l.players ≡ true
    pub distinct : IsSetList l.players
    pub idle : is_some l.idle_since ≡ ltb (length l.players) chud_threshold

  -- The player stands in the lobby of that id.
  abbrev pub Houses : Dict LobbyId (Lobby F) → BasicId → LobbyId → Type 0
  Houses lobbies pid lid =
      (l : Lobby F) × (lookup lid lobbies ≡ some l) × (contains pid l.players ≡ true)

  -- Players and lobbies name each other, and the index has the lobbies and no others.
  pub record IsValid (s : BlasterEventLoop F) : Type 0 where
    pub rooms : (lid : LobbyId) (l : Lobby F) → lookup lid s.lobbies ≡ some l → LobbyIsValid l
    pub home :
        (pid : BasicId) (p : Player F) → lookup pid s.players ≡ some p → Houses s.lobbies pid p.lid
    pub guest :
        (lid : LobbyId) (l : Lobby F) (pid : BasicId)
        → lookup lid s.lobbies ≡ some l
        → contains pid l.players ≡ true
        → (p : Player F) × (lookup pid s.players ≡ some p) × (p.lid ≡ lid)
    pub no_null : lookup null s.players ≡ none
    pub index :
        (gid : GameId) (lid : BasicId)
        → contains lid (indexed gid s) ≡ is_some (lookup (lobby_id gid lid) s.lobbies)
    pub unique : (gid : GameId) → IsSetList (indexed gid s)
    pub no_empty : (gid : GameId) → lookup gid s.gid_lobbies ≢ some []

-- What is relied on of the walk over a hash set: it meets the elements and no others.
pub record IsWalk (env : Env) : Type 0 where
  pub meets : (x : BasicId) (xs : List BasicId) → contains x (env.iter xs) ≡ contains x xs

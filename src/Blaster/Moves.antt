-- ===== src/Blaster/Moves.antt =====
-- An abstract view of the event loop: the moves that its operations make on rooms and players.
-- Each operation of server/src/blaster/eventloop.rs is a sequence of them.
pub mod Single
pub mod Rooms
pub mod Recv
use nut_blast.Base.{
  ℕ, ◌≤◌, ◌≡◌, ◌≢◌, Bool, true, false, Option, none, some, List, [], Dict, lookup, insert, erase,
  length, is_some,
}
use nut_blast.Float.{Float}
use nut_blast.Protocol.Basic.{BasicId, LobbyId, null, lobby_id_eq}
use nut_blast.Protocol.Metadata.{Metadata, max_fields}
use nut_blast.Base.{nat_eq, string_eq}
use nut_blast.Tokens.{TokenBucket}
use nut_blast.Blaster.{IpAddr, Peer, Lobby, Player, Env, is_full}
use nut_blast.Blaster.EventLoop.State.{BlasterEventLoop, put_lobby, put_player, admit}
use nut_blast.Blaster.EventLoop.Rooms.{host_refusal, leave, add_to_index, remove_from_index}

-- Metadata stays within its size.
abbrev pub StaysSmall : Metadata → Metadata → Type 0
StaysSmall m m' = length m ≤ max_fields → length m' ≤ max_fields

module _ {F : Float} where
  -- What an operation of a master leaves alone, and what it keeps in bounds, where `top` bounds
  -- the capacities that are asked for.
  pub record SameRoom (top : ℕ) (l l' : Lobby F) : Type 0 where
    pub players : l'.players ≡ l.players
    pub idle_since : l'.idle_since ≡ l.idle_since
    pub initiator : l'.initiator ≡ l.initiator
    pub capacity : l.capacity ≤ top → l'.capacity ≤ top
    pub metadata : StaysSmall l.metadata l'.metadata

  -- A lobby that has just been made for its host.
  pub record IsNewRoom (top : ℕ) (pid : BasicId) (l : Lobby F) : Type 0 where
    pub players : l.players ≡ []
    pub master : l.master ≡ pid
    pub idle_since : is_some l.idle_since ≡ true
    pub capacity : l.capacity ≤ top
    pub metadata : length l.metadata ≤ max_fields

  -- A player that has no place yet.
  pub record IsNewcomer (pid : BasicId) (player : Player F) (lid : LobbyId) (s : BlasterEventLoop F)
      : Type 0 where
    pub fresh : lookup pid s.players ≡ none
    pub named : pid ≢ null
    pub lid_eq : player.lid ≡ lid
    pub metadata : length player.metadata ≤ max_fields

  -- What is left when a lobby goes with its last player.
  abbrev pub closed_state :
      Env → BasicId → LobbyId → Lobby F → BlasterEventLoop F → BlasterEventLoop F
  closed_state env pid lid l s = record s {
    players = erase pid s.players;
    lobbies = erase lid (insert lid (leave env pid l) s.lobbies);
    gid_lobbies = remove_from_index lid s.gid_lobbies;
  }

  pub data Move (env : Env) (top : ℕ) (s t : BlasterEventLoop F) : Type 0 where
    peers_written :
        (peers : Dict IpAddr (Peer F)) → t ≡ record s { peers = peers } → Move env top s t
    lobby_written :
        (lid : LobbyId) (l l' : Lobby F)
        → lookup lid s.lobbies ≡ some l
        → SameRoom top l l'
        → l'.master ≡ l.master
        → t ≡ put_lobby lid l' s
        → Move env top s t
    crowned :
        (lid : LobbyId) (l l' : Lobby F) (p : Player F)
        → lookup lid s.lobbies ≡ some l
        → SameRoom top l l'
        → lookup l'.master s.players ≡ some p
        → p.lid ≡ lid
        → t ≡ put_lobby lid l' s
        → Move env top s t
    player_written :
        (pid : BasicId) (p p' : Player F)
        → lookup pid s.players ≡ some p
        → p'.lid ≡ p.lid
        → StaysSmall p.metadata p'.metadata
        → t ≡ put_player pid p' s
        → Move env top s t
    entered :
        (pid : BasicId) (player : Player F) (lid : LobbyId) (l : Lobby F)
        → lookup lid s.lobbies ≡ some l
        → is_full l ≡ false
        → IsNewcomer pid player lid s
        → t ≡ admit pid player lid l s
        → Move env top s t
    opened :
        (pid : BasicId) (player : Player F) (lid : LobbyId) (l : Lobby F)
        → lookup lid s.lobbies ≡ none
        → IsNewRoom top pid l
        → host_refusal l.initiator lid.gid l.listed s ≡ none
        → IsNewcomer pid player lid s
        → t ≡ admit pid player lid l (add_to_index lid (put_lobby lid l s))
        → Move env top s t
    -- A player leaves a lobby that goes on, or that is closed.
    left :
        (pid : BasicId) (p : Player F) (l : Lobby F)
        → lookup pid s.players ≡ some p
        → lookup p.lid s.lobbies ≡ some l
        → (leave env pid l).master ≢ null
        → t ≡ put_lobby p.lid (leave env pid l) (record s { players = erase pid s.players })
        → Move env top s t
    closed :
        (pid : BasicId) (p : Player F) (l : Lobby F)
        → lookup pid s.players ≡ some p
        → lookup p.lid s.lobbies ≡ some l
        → (leave env pid l).master ≡ null
        → t ≡ closed_state env pid p.lid l s
        → Move env top s t
    -- A player whose lobby is not there.
    forgotten :
        (pid : BasicId) (p : Player F)
        → lookup pid s.players ≡ some p
        → lookup p.lid s.lobbies ≡ none
        → t ≡ record s { players = erase pid s.players }
        → Move env top s t

  pub data Moves (env : Env) (top : ℕ) (s : BlasterEventLoop F) : BlasterEventLoop F → Type 0 where
    done : Moves env top s s
    more : {t u : BlasterEventLoop F} → Moves env top s t → Move env top t u → Moves env top s u

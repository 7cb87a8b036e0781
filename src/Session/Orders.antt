-- ===== src/Session/Orders.antt =====
-- What a session may ask of the event loop; it answers to server/src/session.rs.
pub mod Laws
use nut_blast.Base.{ℕ, ◌≤◌, ◌≡◌, Bool, Option, none, some, List, [], ◌∷◌, String, len}
use nut_blast.Float.{Float}
use nut_blast.Protocol.Basic.{BasicId, GameId, LobbyId}
use nut_blast.Protocol.Metadata.{Metadata}
use nut_blast.Protocol.Payloads.{ServerMessage}
use nut_blast.Protocol.Sound.{IsGid, IsFieldName, IsFieldValue, IsMeta}
use nut_blast.Blaster.{BlasterOperation}
use nut_blast.Blaster.Rights.Recv.{ByPlayer}
use nut_blast.Session.{Session, Turned, Turn, done, waits, Awaited, pong, listing, seat}

-- A message that goes to another player names its sender, and its texts have been validated.
abbrev pub IsSignal : BasicId → ServerMessage → Type 0
IsSignal pid (ServerMessage.candidate from candidate mid) =
    (from ≡ pid) × (len candidate ≤ 512) × (len mid ≤ 512)
IsSignal pid (ServerMessage.offer from sdp) = (from ≡ pid) × (len sdp ≤ 4096)
IsSignal pid (ServerMessage.answer from sdp) = (from ≡ pid) × (len sdp ≤ 4096)
IsSignal pid msg = ⊥

-- The arguments of a player's operation have been validated.
abbrev pub IsChecked : BlasterOperation → Type 0
IsChecked (BlasterOperation.set_capacity pid capacity) = (2 ≤ capacity) × (capacity ≤ 15)
IsChecked (BlasterOperation.set_player_meta pid key value) = IsFieldName key × IsFieldValue value
IsChecked (BlasterOperation.erase_player_meta pid key) = IsFieldName key
IsChecked (BlasterOperation.set_lobby_meta pid key value) = IsFieldName key × IsFieldValue value
IsChecked (BlasterOperation.erase_lobby_meta pid key) = IsFieldName key
IsChecked (BlasterOperation.relay from to msg) = IsSignal from msg
IsChecked op = Unit

module _ {F : Float} where
  -- The session itself has not changed whom it speaks for.
  pub record SameClient (s s' : Session F) : Type 0 where
    pub pid : s'.pid ≡ s.pid
    pub real_ip : s'.real_ip ≡ s.real_ip
    pub msg_sender : s'.msg_sender ≡ s.msg_sender

  -- The operation is one of the session's own player, with validated arguments.
  abbrev pub IsOrder : Session F → BlasterOperation → Type 0
  IsOrder s op = (pid : BasicId) × (s.pid ≡ some pid) × ByPlayer pid op × IsChecked op

  -- What a session with no player may ask for.
  pub data SeatRequest (s : Session F) (op : BlasterOperation) : Type 0 where
    host :
        (gid : GameId) (lobby_metadata player_metadata : Metadata) (capacity : ℕ) (listed : Bool)
        → IsGid gid
        → (2 ≤ capacity) × (capacity ≤ 15)
        → IsMeta lobby_metadata
        → IsMeta player_metadata
        → op
          ≡ BlasterOperation.host_lobby s.real_ip gid lobby_metadata capacity listed player_metadata
              s.msg_sender
        → SeatRequest s op
    join :
        (lid : LobbyId) (player_metadata : Metadata)
        → IsGid lid.gid
        → IsMeta player_metadata
        → op ≡ BlasterOperation.join_lobby s.real_ip lid player_metadata s.msg_sender
        → SeatRequest s op

  -- The operation is one that the session may wait for in that way.
  abbrev pub IsRequest : Session F → BlasterOperation → Awaited → Type 0
  IsRequest s op pong =
      (pid : BasicId) × (s.pid ≡ some pid) × (op ≡ BlasterOperation.assemble_pong pid)
  IsRequest s op listing =
      (gid : GameId) × (limit : ℕ) × (s.pid ≡ none)
      × IsGid gid
      × (op ≡ BlasterOperation.list_lobbies s.real_ip gid limit)
  IsRequest s op seat = (s.pid ≡ none) × SeatRequest s op

  abbrev pub EachOrder : Session F → List BlasterOperation → Type 0
  EachOrder s [] = Unit
  EachOrder s (op ∷ ops) = EachOrder s ops × IsOrder s op

  -- All that the session does, it does as itself.
  abbrev pub IsTurn : Session F → Turn F → Type 0
  IsTurn s (done t) = SameClient s t.session × EachOrder s t.executed
  IsTurn s (waits s' op a) = SameClient s s' × IsRequest s op a

-- ===== src/Blaster/Moves/Recv.antt =====
-- `recv` as moves: every operation returns, and what it does is a sequence of moves.
use nut_blast.Base.{
  ℕ, ◌≤◌, ◌≡◌, ◌≢◌, refl, ◌∙◌, ap, subst, Bool, Option, none, some, List, [], ◌∷◌, length, lookup,
  Bool-cases, Option-cases, inl, inr, leb, nat_eq, string_eq,
}
use nut_blast.Float.{Float}
use nut_blast.Config.{Config}
use nut_blast.Protocol.Basic.{BasicId, GameId, LobbyId, null, lobby_id_eq}
use nut_blast.Protocol.Metadata.{Metadata, max_fields}
use nut_blast.Blaster.{IpAddr, TokioSender, BlasterOperation, Env, Lobby, session_count}
use nut_blast.Blaster.EventLoop.{Outcome, answer, recv, turn}
use nut_blast.Blaster.EventLoop.State.{
  sessions_per_ip_cap, global_sessions_cap, global_peers_cap, BlasterEventLoop, cap_ip, new_player,
}
use nut_blast.Blaster.EventLoop.Sessions.{total_sessions, introduce_session, close_session, prune}
use nut_blast.Blaster.EventLoop.Rooms.{lobby_id, host_refusal, new_lobby, list_lobbies}
use nut_blast.Blaster.Moves.{
  IsNewRoom, IsNewcomer, Moves, peers_written, entered, opened, done, more,
}
use nut_blast.Blaster.Moves.Single.{
  cap_ip-Moves, set_capacity-Moves, set_listed-Moves, set_master-Moves, set_lobby_meta-Moves,
  erase_lobby_meta-Moves, set_player_meta-Moves, erase_player_meta-Moves,
}
use nut_blast.Blaster.Moves.Rooms.{
  cap_ip-peers, host_lobby-cases, join_lobby-cases, remove_player-Moves,
}

-- A random id that no player has, and that is not the null id.
abbrev pub IsFresh : {F : Float} → BasicId → BlasterEventLoop F → Type 0
IsFresh pid s = (lookup pid s.players ≡ none) × (pid ≢ null)

-- An operation as a session sends it after validation, with `top` above every capacity, in a
-- world whose random ids are not taken.
abbrev pub IsAdmissible : {F : Float} → Env → ℕ → BlasterOperation → BlasterEventLoop F → Type 0
IsAdmissible env top (BlasterOperation.set_capacity pid capacity) s = capacity ≤ top
IsAdmissible env top (BlasterOperation.host_lobby ip gid m capacity listed pm sender) s =
    (capacity ≤ top)
    × (length m ≤ max_fields)
    × (length pm ≤ max_fields)
    × (lookup (lobby_id gid (env.random 0)) s.lobbies ≡ none)
    × IsFresh (env.random 1) s
IsAdmissible env top (BlasterOperation.join_lobby ip lid pm sender) s =
    (length pm ≤ max_fields) × IsFresh (env.random 0) s
IsAdmissible env top _ s = Unit

module _ {F : Float} where
  -- The operation returns, in a state with the property.
  abbrev pub Ends : (BlasterEventLoop F → Type 0) → Option (Outcome F) → Type 0
  Ends P none = ⊥
  Ends P (some o) = P o.state

module _ {F : Float} (env : Env) (top : ℕ) where
  IsNewcomer_lem :
      (pid : BasicId) (lid : LobbyId) (l : Lobby F) (m : Metadata) (sender : TokioSender)
      (now bucket_now : ℕ) (ip : IpAddr) (at : ℕ) (s : BlasterEventLoop F)
      → length m ≤ max_fields
      → IsFresh pid s
      → IsNewcomer pid (new_player lid l m sender now bucket_now) lid (cap_ip ip at s).0
  unfolding new_player
  IsNewcomer_lem pid lid l m sender now bucket_now ip at s small fresh = record {
    fresh = ap (λ (t : BlasterEventLoop F). lookup pid t.players) (cap_ip-peers ip at s) ∙ fresh.0;
    named = fresh.1;
    lid_eq = refl;
    metadata = small;
  }

  IsNewRoom_lem :
      (ip : IpAddr) (m : Metadata) (capacity : ℕ) (listed : Bool) (pid : BasicId)
      → capacity ≤ top
      → length m ≤ max_fields
      → IsNewRoom top pid (new_lobby {F = F} env ip m capacity listed pid)
  unfolding new_lobby
  IsNewRoom_lem ip m capacity listed pid low small = record {
    players = refl;
    master = refl;
    idle_since = refl;
    capacity = low;
    metadata = small;
  }

  refusal_lem :
      (ip : IpAddr) (m : Metadata) (capacity : ℕ) (listed : Bool) (pid : BasicId) (gid : GameId)
      (id : BasicId) (s : BlasterEventLoop F)
      → host_refusal ip gid listed s ≡ none
      → let l = new_lobby {F = F} env ip m capacity listed pid in
        host_refusal l.initiator (lobby_id gid id).gid l.listed s ≡ none
  unfolding new_lobby
  refusal_lem ip m capacity listed pid gid id s allowed = allowed

  introduce_session-Moves :
      (ip : IpAddr) (now : ℕ) (s : BlasterEventLoop F)
      → Moves env top s (introduce_session ip now s).0
  unfolding introduce_session
  introduce_session-Moves ip now s =
      elim (Bool-cases (leb global_sessions_cap (total_sessions s.peers))) [
        | inl full ↦ rw full done
        | inr room ↦ rw room (elim (Option-cases (lookup ip s.peers)) [
          | inl missing ↦ rw missing (elim (Bool-cases (leb global_peers_cap (length s.peers))) [
            | inl many ↦ rw many done
            | inr few ↦ rw few (more done (peers_written _ refl))
          ])
          | inr (p, found) ↦
              rw found (elim (Bool-cases (leb sessions_per_ip_cap (session_count p))) [
                | inl many ↦ rw many done
                | inr few ↦ rw few (more done (peers_written _ refl))
              ])
        ])
      ]

  close_session-Moves :
      (ip : IpAddr) (now : ℕ) (s : BlasterEventLoop F) → Moves env top s (close_session ip now s)
  unfolding close_session
  close_session-Moves ip now s = elim (Option-cases (lookup ip s.peers)) [
    | inl missing ↦ rw (missing, close_session) done
    | inr (p, found) ↦ rw (found, close_session) (more done (peers_written _ refl))
  ]

  -- Every operation returns, and takes the state along moves.
  pub recv-Moves :
      (op : BlasterOperation) (s : BlasterEventLoop F)
      → IsAdmissible env top op s
      → Ends (Moves env top s) (recv env op s)
  unfolding recv prune list_lobbies
  recv-Moves (BlasterOperation.assemble_pong pid) s h = done
  recv-Moves (BlasterOperation.set_capacity pid capacity) s h = set_capacity-Moves pid capacity s h
  recv-Moves (BlasterOperation.set_listed pid listed) s h = set_listed-Moves pid listed s
  recv-Moves (BlasterOperation.set_master pid new_master) s h = set_master-Moves pid new_master s
  recv-Moves (BlasterOperation.set_player_meta pid key value) s h =
      set_player_meta-Moves pid key value s
  recv-Moves (BlasterOperation.erase_player_meta pid key) s h = erase_player_meta-Moves pid key s
  recv-Moves (BlasterOperation.set_lobby_meta pid key value) s h =
      set_lobby_meta-Moves pid key value s
  recv-Moves (BlasterOperation.erase_lobby_meta pid key) s h = erase_lobby_meta-Moves pid key s
  recv-Moves (BlasterOperation.relay from to msg) s h = done
  recv-Moves (BlasterOperation.list_lobbies ip gid limit) s h = cap_ip-Moves ip (env.now 0) s
  recv-Moves (BlasterOperation.host_lobby ip gid m capacity listed pm sender) s h =
      let s₁ = (cap_ip ip (env.now 0) s).0 in
      let lid = lobby_id gid (env.random 0) in
      let pid = env.random 1 in
      host_lobby-cases (λ r. Ends (Moves env top s) (answer r)) env ip gid m capacity listed pm
        sender s (λ r. cap_ip-Moves ip (env.now 0) s)
        (λ sent allowed. more (cap_ip-Moves ip (env.now 0) s) (
          opened pid _ lid _
            (ap (λ (t : BlasterEventLoop F). lookup lid t.lobbies) (cap_ip-peers ip (env.now 0) s)
              ∙ h.3)
            (IsNewRoom_lem ip m capacity listed pid h.0 h.1)
            (refusal_lem ip m capacity listed pid gid lid.lid s₁ allowed)
            (IsNewcomer_lem pid lid _ pm sender (env.now 4) (env.now 5) ip (env.now 0) s h.2 h.4)
            refl))
  recv-Moves (BlasterOperation.join_lobby ip lid pm sender) s h =
      join_lobby-cases (λ r. Ends (Moves env top s) (answer r)) env ip lid pm sender s
        (λ r. cap_ip-Moves ip (env.now 0) s)
        (λ l sent there room. more (cap_ip-Moves ip (env.now 0) s) (
          entered (env.random 0) _ lid l there room
            (IsNewcomer_lem (env.random 0) lid l pm sender (env.now 1) (env.now 2) ip (env.now 0) s
              h.0 h.1)
            refl))
  recv-Moves (BlasterOperation.kick_player kicker kickee) s h = done
  recv-Moves (BlasterOperation.remove_player pid reason) s h = remove_player-Moves pid reason s
  recv-Moves (BlasterOperation.introduce_session ip) s h = introduce_session-Moves ip (env.now 0) s
  recv-Moves BlasterOperation.prune s h = more done (peers_written _ refl)
  recv-Moves (BlasterOperation.close_session ip) s h = close_session-Moves ip (env.now 0) s

module _ {F : Float} where
  -- A round of the loop is what the operation does: there is no panic to recover from.
  pub turn-Moves :
      (config : Config) (env : Env) (top : ℕ) (op : BlasterOperation) (s : BlasterEventLoop F)
      → IsAdmissible env top op s
      → Moves env top s (turn config env op s)
  unfolding turn
  turn-Moves config env top op s h = elim (Option-cases (recv env op s)) [
    | inl panicked ↦ absurd (subst (Ends (Moves env top s)) panicked (recv-Moves env top op s h))
    | inr (o, e) ↦ rw (e, turn) (subst (Ends (Moves env top s)) e (recv-Moves env top op s h))
  ]

  -- A history in which every operation is admissible when its turn comes.
  abbrev pub IsAdmissibleRun :
      Config → ℕ → List (Env × BlasterOperation) → BlasterEventLoop F → Type 0
  IsAdmissibleRun config top [] s = Unit
  IsAdmissibleRun config top ((env, op) ∷ ops) s =
      IsAdmissible env top op s × IsAdmissibleRun config top ops (turn config env op s)

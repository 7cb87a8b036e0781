-- ===== src/Blaster/EventLoop/Sessions.antt =====
-- Sessions and peers, server/src/blaster/eventloop.rs: `IntroduceSession`, `CloseSession`, `Prune`.
use mathlib.Core.Option
use nut_blast.Base.{
  ℕ, ◌+◌, ◌-◌, Bool, true, false, none, some, List, [], ◌∷◌, ◌++◌, nat_eq, Dict, lookup, insert,
  filter, filter_map, length, leb, ltb, if◌then◌else◌,
}
use nut_blast.Float.{Float}
use nut_blast.Protocol.Basic.{LobbyId}
use nut_blast.Protocol.Payloads.{natural, ServerMessage}
use nut_blast.Blaster.{
  IpAddr, Instant, PeerSessionCount, Peer, Lobby, Sent, Env, new_peer, session_count, send,
}
use nut_blast.Blaster.EventLoop.State.{
  BlasterEventLoop, sessions_per_ip_cap, global_sessions_cap, global_peers_cap,
  session_idle_timeout, chud_lobby_timeout,
}

-- `count.saturating_sub(1)`
unfoldable pub close_count : Instant → PeerSessionCount → PeerSessionCount
close_count now (PeerSessionCount.decaying death) = PeerSessionCount.decaying death
close_count now (PeerSessionCount.some count) =
    if leb count 1 then PeerSessionCount.decaying now else PeerSessionCount.some (count - 1)

module _ {F : Float} where
  -- `self.peers.values().map(|c| c.session_count()).sum()`
  unfoldable pub total_sessions : Dict IpAddr (Peer F) → ℕ
  total_sessions [] = 0
  total_sessions ((ip, peer) ∷ peers) = session_count peer + total_sessions peers

  unfoldable pub introduce_session :
      IpAddr → Instant → BlasterEventLoop F → BlasterEventLoop F × Bool
  introduce_session ip now s =
      if leb global_sessions_cap (total_sessions s.peers)
      then (s, false)
      else elim (lookup ip s.peers) [
        | some peer ↦ if leb sessions_per_ip_cap (session_count peer) then (s, false) else (
          record s {
            peers =
                insert ip
                  (record peer { session_count = PeerSessionCount.some (session_count peer + 1) })
                  s.peers;
          },
          true,
        )
        | none ↦
            if leb global_peers_cap (length s.peers)
            then (s, false)
            else (record s { peers = insert ip (new_peer now) s.peers }, true)
      ]

  unfoldable pub close_session : IpAddr → Instant → BlasterEventLoop F → BlasterEventLoop F
  close_session ip now s = elim (lookup ip s.peers) [
    | none ↦ s
    | some peer ↦ record s {
      peers =
          insert ip (record peer { session_count = close_count now peer.session_count }) s.peers;
    }
  ]

  -- The test of `self.peers.retain`.
  unfoldable pub is_kept : Instant → Peer F → Bool
  is_kept now peer = elim peer.session_count [
    | PeerSessionCount.decaying death ↦ ltb (now - death) session_idle_timeout
    | PeerSessionCount.some _ ↦ true
  ]

  unfoldable pub is_inactive : Instant → Lobby F → Bool
  is_inactive now lobby = elim lobby.idle_since [
    | none ↦ false
    | some since ↦ leb chud_lobby_timeout (now - since)
  ]

  -- The members of an inactive lobby are told to go; they leave by `RemovePlayer`.
  unfoldable pub evict : Env → Instant → BlasterEventLoop F → Lobby F → List Sent
  evict env now s lobby =
      if is_inactive now lobby
      then filter_map
          (λ pid.
            Option.map
              (λ p. send p (ServerMessage.disconnected (natural "inactive_lobby" "Inactive lobby")))
              (lookup pid s.players))
          (env.iter lobby.players)
      else []

  abbrev pub evict_all : Env → Instant → BlasterEventLoop F → Dict LobbyId (Lobby F) → List Sent
  evict_all env now s [] = []
  evict_all env now s ((lid, lobby) ∷ rest) = evict env now s lobby ++ evict_all env now s rest

  unfoldable pub prune : Env → BlasterEventLoop F → BlasterEventLoop F × List Sent
  prune env s =
      let now = env.now 0 in
      (record s { peers = filter (λ e. is_kept now e.1) s.peers }, evict_all env now s s.lobbies)

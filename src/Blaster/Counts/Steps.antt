-- ===== src/Blaster/Counts/Steps.antt =====
-- Introducing and closing a session, and paying for a request, as the counts see them;
-- server/src/blaster/eventloop.rs.
use nut_blast.Base.{
  IsKeyed, IsKeyed-insert, ◌+◌, ◌-◌, ◌≡◌, refl, none, some, Dict, lookup, length, leb, arith,
  nat_eq, ◌==◌, beq→eq, Bool-cases, Option-cases, inl, inr, if◌then◌else◌,
}
use nut_blast.Float.{Float}
use nut_blast.Tokens
use nut_blast.Blaster.{IpAddr, Instant, PeerSessionCount, Peer, session_count, new_peer}
use nut_blast.Blaster.EventLoop.State.{
  BlasterEventLoop, cap_ip, global_sessions_cap, global_peers_cap, sessions_per_ip_cap,
}
use nut_blast.Blaster.EventLoop.Sessions.{
  introduce_session, close_session, close_count, total_sessions,
}
use nut_blast.Blaster.Counts.{live, live-insert}

module _ {F : Float} where
  -- An address known before the write, or not.
  pub live-some :
      (j : IpAddr) (p : Peer F) (peers : Dict IpAddr (Peer F))
      → lookup j peers ≡ some p
      → live j peers ≡ session_count p
  unfolding live
  live-some j p peers h = ground (arith, h)

  pub live-none :
      (j : IpAddr) (peers : Dict IpAddr (Peer F)) → lookup j peers ≡ none → live j peers ≡ 0
  unfolding live
  live-none j peers h = ground (arith, h)

  pub introduce_session-live :
      (ip j : IpAddr) (now : Instant) (s : BlasterEventLoop F)
      → let (s', b) = introduce_session ip now s in
        (live j s'.peers ≡ (
          if b then (if ip == j then live j s.peers + 1 else live j s.peers) else live j s.peers))
  unfolding introduce_session session_count new_peer
  introduce_session-live ip j now s = elim (Option-cases (lookup ip s.peers)) [
    | inl gone ↦ ground (
      arith,
      gone,
      live-insert ip j (new_peer now) s.peers,
      live-none ip s.peers gone,
      beq→eq ip j,
    )
    | inr (p, there) ↦ ground (
      arith,
      there,
      live-insert ip j (record p { session_count = PeerSessionCount.some (session_count p + 1) })
          s.peers,
      live-some ip p s.peers there,
      beq→eq ip j,
    )
  ]

  pub close_session-live :
      (ip j : IpAddr) (now : Instant) (s : BlasterEventLoop F)
      → live j (close_session ip now s).peers
        ≡ (if ip == j then live j s.peers - 1 else live j s.peers)
  unfolding close_session session_count close_count
  close_session-live ip j now s = elim (Option-cases (lookup ip s.peers)) [
    | inl gone ↦ ground (arith, gone, live-none ip s.peers gone, beq→eq ip j)
    | inr (p, there) ↦ ground (
      arith,
      there,
      live-insert ip j (record p { session_count = close_count now p.session_count }) s.peers,
      live-some ip p s.peers there,
      beq→eq ip j,
    )
  ]

  pub cap_ip-live :
      (ip j : IpAddr) (now : Instant) (s : BlasterEventLoop F)
      → live j (cap_ip ip now s).0.peers ≡ live j s.peers
  unfolding cap_ip session_count
  cap_ip-live ip j now s = elim (Option-cases (lookup ip s.peers)) [
    | inl gone ↦ rw (gone, cap_ip) refl
    | inr (p, there) ↦
        rw (there, cap_ip)
          (ground (
            arith,
            live-insert ip j
                (record p { sessions_budget = (Tokens.try_take 1 now p.sessions_budget).0 })
                s.peers,
            live-some ip p s.peers there,
            beq→eq ip j,
          ))
  ]

  pub cap_ip-IsKeyed :
      (ip : IpAddr) (now : Instant) (s : BlasterEventLoop F)
      → IsKeyed s.peers
      → IsKeyed (cap_ip ip now s).0.peers
  unfolding cap_ip
  cap_ip-IsKeyed ip now s k = elim (Option-cases (lookup ip s.peers)) [
    | inl gone ↦ rw (gone, cap_ip) k
    | inr (p, there) ↦ rw (there, cap_ip) (IsKeyed-insert ip _ s.peers k)
  ]

  pub introduce_session-IsKeyed :
      (ip : IpAddr) (now : Instant) (s : BlasterEventLoop F)
      → IsKeyed s.peers
      → IsKeyed (introduce_session ip now s).0.peers
  unfolding introduce_session
  introduce_session-IsKeyed ip now s k =
      elim (Bool-cases (leb global_sessions_cap (total_sessions s.peers))) [
        | inl full ↦ rw full k
        | inr room ↦ rw room (elim (Option-cases (lookup ip s.peers)) [
          | inl missing ↦ rw missing (elim (Bool-cases (leb global_peers_cap (length s.peers))) [
            | inl many ↦ rw many k
            | inr few ↦ rw few (IsKeyed-insert ip _ s.peers k)
          ])
          | inr (p, found) ↦
              rw found (elim (Bool-cases (leb sessions_per_ip_cap (session_count p))) [
                | inl many ↦ rw many k
                | inr few ↦ rw few (IsKeyed-insert ip _ s.peers k)
              ])
        ])
      ]

  pub close_session-IsKeyed :
      (ip : IpAddr) (now : Instant) (s : BlasterEventLoop F)
      → IsKeyed s.peers
      → IsKeyed (close_session ip now s).peers
  unfolding close_session
  close_session-IsKeyed ip now s k = elim (Option-cases (lookup ip s.peers)) [
    | inl gone ↦ rw (gone, close_session) k
    | inr (p, there) ↦ rw (there, close_session) (IsKeyed-insert ip _ s.peers k)
  ]

-- ===== src/Blaster/Caps.antt =====
-- The caps on sessions and peers of server/src/blaster/eventloop.rs.
pub mod Frame
pub mod Run
use nut_blast.Base.{
  ℕ, ◌+◌, ◌≤◌, ◌≡◌, refl, Bool, true, false, Option, none, some, List, [], ◌∷◌, arith, nat_eq, Dict,
  lookup, insert, filter, length, AllValues, AllValues-insert, AllValues-lookup, length-insert_le,
  length-insert_old, leb, Bool-cases, Option-cases, inl, inr, if◌then◌else◌, length-filter-le,
}
use nut_blast.Float.{Float}
use nut_blast.Blaster.{IpAddr, Instant, PeerSessionCount, Peer, Env, session_count, new_peer}
use nut_blast.Blaster.EventLoop.State.{
  BlasterEventLoop, new, global_sessions_cap, global_peers_cap, sessions_per_ip_cap,
}
use nut_blast.Blaster.EventLoop.Sessions.{
  total_sessions, introduce_session, close_session, close_count, is_kept, prune,
}

-- A counted peer has a session, and not too many.
abbrev pub CountIsValid : PeerSessionCount → Type 0
CountIsValid (PeerSessionCount.some n) = (1 ≤ n) × (n ≤ sessions_per_ip_cap)
CountIsValid (PeerSessionCount.decaying _) = Unit

-- `Peer::session_count` of a bare count.
abbrev count_of : PeerSessionCount → ℕ
count_of c = elim c [ PeerSessionCount.some n ↦ n | PeerSessionCount.decaying _ ↦ 0 ]

close_count-CountIsValid :
    (now : Instant) (c : PeerSessionCount) → CountIsValid c → CountIsValid (close_count now c)
unfolding close_count
close_count-CountIsValid now (PeerSessionCount.decaying death) h = tt
close_count-CountIsValid now (PeerSessionCount.some n) h = ground arith

close_count_le : (now : Instant) (c : PeerSessionCount) → count_of (close_count now c) ≤ count_of c
unfolding close_count
close_count_le now (PeerSessionCount.decaying death) = omega arith
close_count_le now (PeerSessionCount.some n) = ground arith

module _ {F : Float} where
  abbrev pub PeerIsValid : Peer F → Type 0
  PeerIsValid p = CountIsValid p.session_count

  pub record IsCapped (peers : Dict IpAddr (Peer F)) : Type 0 where
    pub each : AllValues PeerIsValid peers
    pub sessions : total_sessions peers ≤ global_sessions_cap
    pub count : length peers ≤ global_peers_cap

  total_sessions-insert_old :
      (ip : IpAddr) (p q : Peer F) (peers : Dict IpAddr (Peer F))
      → lookup ip peers ≡ some p
      → total_sessions (insert ip q peers) + session_count p
        ≡ total_sessions peers + session_count q
  unfolding total_sessions insert lookup
  total_sessions-insert_old ip p q [] h = absurd (cc)
  total_sessions-insert_old ip p q ((j, w) ∷ peers) h =
      ground (arith, total_sessions-insert_old ip p q peers)

  total_sessions-insert_new :
      (ip : IpAddr) (q : Peer F) (peers : Dict IpAddr (Peer F))
      → lookup ip peers ≡ none
      → total_sessions (insert ip q peers) ≡ total_sessions peers + session_count q
  unfolding total_sessions insert lookup
  total_sessions-insert_new ip q [] h = omega arith
  total_sessions-insert_new ip q ((j, w) ∷ peers) h =
      ground (arith, total_sessions-insert_new ip q peers)

  total_sessions-filter_le :
      (p : IpAddr × Peer F → Bool) (peers : Dict IpAddr (Peer F))
      → total_sessions (filter p peers) ≤ total_sessions peers
  unfolding total_sessions
  total_sessions-filter_le p [] = omega arith
  total_sessions-filter_le p (e ∷ peers) = ground (arith, total_sessions-filter_le p peers)

  AllValues-filter :
      (P : Peer F → Type 0) (p : IpAddr × Peer F → Bool) (peers : Dict IpAddr (Peer F))
      → AllValues P peers
      → AllValues P (filter p peers)
  AllValues-filter P p [] h = tt
  AllValues-filter P p (e ∷ peers) h = elim (Bool-cases (p e)) [
    | inl kept ↦ rw kept (h.0, AllValues-filter P p peers h.1)
    | inr gone ↦ rw gone (AllValues-filter P p peers h.1)
  ]

  -- A write to a peer that is there keeps the caps, if the count stays valid and the sum in range.
  pub update-IsCapped :
      (ip : IpAddr) (p q : Peer F) (peers : Dict IpAddr (Peer F))
      → lookup ip peers ≡ some p
      → PeerIsValid q
      → total_sessions peers + session_count q ≤ global_sessions_cap + session_count p
      → IsCapped peers
      → IsCapped (insert ip q peers)
  update-IsCapped ip p q peers found valid room c = record {
    each = AllValues-insert PeerIsValid ip q peers valid c.each;
    sessions = omega (arith, total_sessions-insert_old ip p q peers found, c.sessions);
    count = rw (length-insert_old ip q p peers found) c.count;
  }

  -- A peer that is new brings one session.
  insert-IsCapped :
      (ip : IpAddr) (q : Peer F) (peers : Dict IpAddr (Peer F))
      → lookup ip peers ≡ none
      → PeerIsValid q
      → total_sessions peers + session_count q ≤ global_sessions_cap
      → length peers + 1 ≤ global_peers_cap
      → IsCapped peers
      → IsCapped (insert ip q peers)
  insert-IsCapped ip q peers missing valid room few c = record {
    each = AllValues-insert PeerIsValid ip q peers valid c.each;
    sessions = omega (arith, total_sessions-insert_new ip q peers missing);
    count = omega (arith, length-insert_le ip q peers);
  }

  pub introduce_session-IsCapped :
      (ip : IpAddr) (now : Instant) (s : BlasterEventLoop F)
      → IsCapped s.peers
      → IsCapped (introduce_session ip now s).0.peers
  unfolding introduce_session new_peer session_count
  introduce_session-IsCapped ip now s c =
      elim (Bool-cases (leb global_sessions_cap (total_sessions s.peers))) [
        | inl full ↦ rw full c
        | inr room ↦ rw room (elim (Option-cases (lookup ip s.peers)) [
          | inl missing ↦ rw missing (elim (Bool-cases (leb global_peers_cap (length s.peers))) [
            | inl many ↦ rw many c
            | inr few ↦ rw few (
                insert-IsCapped ip (new_peer now) s.peers missing (omega arith) (ground arith)
                  (ground arith) c)
          ])
          | inr (p, found) ↦
              rw found (elim (Bool-cases (leb sessions_per_ip_cap (session_count p))) [
                | inl many ↦ rw many c
                | inr few ↦
                    rw few (update-IsCapped ip p _ s.peers found (ground arith) (ground arith) c)
              ])
        ])
      ]

  pub close_session-IsCapped :
      (ip : IpAddr) (now : Instant) (s : BlasterEventLoop F)
      → IsCapped s.peers
      → IsCapped (close_session ip now s).peers
  unfolding close_session session_count
  close_session-IsCapped ip now s c = elim (Option-cases (lookup ip s.peers)) [
    | inl missing ↦ rw (missing, close_session) c
    | inr (p, found) ↦
        let valid = AllValues-lookup PeerIsValid ip p s.peers c.each found in
        rw (found, close_session)
          (update-IsCapped ip p _ s.peers found (close_count-CountIsValid now p.session_count valid)
            (omega (arith, c.sessions, close_count_le now p.session_count)) c)
  ]

  pub prune-IsCapped :
      (env : Env) (s : BlasterEventLoop F) → IsCapped s.peers → IsCapped (prune env s).0.peers
  unfolding prune
  prune-IsCapped env s c = record {
    each = AllValues-filter PeerIsValid _ s.peers c.each;
    sessions = omega (arith, total_sessions-filter_le (λ e. is_kept (env.now 0) e.1) s.peers);
    count = omega (arith, length-filter-le (λ e. is_kept (env.now 0) e.1) s.peers);
  }

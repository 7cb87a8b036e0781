-- ===== src/Blaster/Counts.antt =====
-- What the peers of server/src/blaster/eventloop.rs count: the sessions of each address.

pub mod Steps
pub mod Run
use nut_blast.Base.{
  IsKeyed, ℕ, ◌+◌, ◌-◌, ◌≡◌, refl, sym, ◌∙◌, ap, Bool, true, false, none, some, List, [], ◌∷◌, Dict,
  lookup, insert, filter, lookup-insert, arith, nat_eq, ◌==◌, beq→eq, Bool-cases, Option-cases, inl,
  inr, if◌then◌else◌, leb,
}
use nut_blast.Float.{Float}
use nut_blast.Blaster.{
  IpAddr, Instant, PeerSessionCount, Peer, BlasterOperation, Reply, session_count, new_peer,
}
use nut_blast.Blaster.EventLoop.State.{BlasterEventLoop, cap_ip}
use nut_blast.Blaster.EventLoop.Sessions.{introduce_session, close_session, close_count, is_kept}

-- The sessions of address `j`, as the server's callers see them: an accepted introduction adds one,
-- a close takes one away, and nothing else counts.
abbrev pub step : BlasterOperation → Reply → IpAddr → ℕ → ℕ
step (BlasterOperation.introduce_session ip) (Reply.introduced true) j n =
    if ip == j then n + 1 else n
step (BlasterOperation.close_session ip) reply j n = if ip == j then n - 1 else n
step op reply j n = n

abbrev pub count : List (BlasterOperation × Reply) → IpAddr → ℕ → ℕ
count [] j n = n
count ((op, reply) ∷ log) j n = count log j (step op reply j n)

module _ {F : Float} where
  -- The sessions that the peers have for an address.
  unfoldable pub live : IpAddr → Dict IpAddr (Peer F) → ℕ
  live j peers = elim (lookup j peers) [ none ↦ 0 | some p ↦ session_count p ]

  lookup-filter-none :
      (now : Instant) (j : IpAddr) (peers : Dict IpAddr (Peer F))
      → lookup j peers ≡ none
      → lookup j (filter (λ e. is_kept now e.1) peers) ≡ none
  unfolding lookup
  lookup-filter-none now j [] h = refl
  lookup-filter-none now j ((i, w) ∷ peers) h = ground (arith, lookup-filter-none now j peers)

  pub IsKeyed-filter :
      (now : Instant) (peers : Dict IpAddr (Peer F))
      → IsKeyed peers
      → IsKeyed (filter (λ e. is_kept now e.1) peers)
  IsKeyed-filter now [] h = tt
  IsKeyed-filter now ((i, w) ∷ peers) h = elim (Bool-cases (is_kept now w)) [
    | inl kept ↦ rw kept (lookup-filter-none now i peers h.0, IsKeyed-filter now peers h.1)
    | inr old ↦ rw old (IsKeyed-filter now peers h.1)
  ]

  dropped : (now : Instant) (p : Peer F) → is_kept now p ≡ false → session_count p ≡ 0
  unfolding is_kept session_count
  dropped now p h = ground arith

  pub live-filter :
      (now : Instant) (j : IpAddr) (peers : Dict IpAddr (Peer F))
      → IsKeyed peers
      → live j (filter (λ e. is_kept now e.1) peers) ≡ live j peers
  unfolding live lookup
  live-filter now j [] h = refl
  live-filter now j ((i, w) ∷ peers) h = ground (
    arith,
    live-filter now j peers h.1,
    dropped now w,
    lookup-filter-none now i peers h.0,
    beq→eq i j,
  )

  pub live-insert :
      (ip j : IpAddr) (p : Peer F) (peers : Dict IpAddr (Peer F))
      → live j (insert ip p peers) ≡ (if ip == j then session_count p else live j peers)
  unfolding live
  live-insert ip j p peers = ground (arith, lookup-insert ip j p peers)

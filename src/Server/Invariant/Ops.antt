-- ===== src/Server/Invariant/Ops.antt =====
-- The operations in the queue are admissible, and what they count; server/src/blaster.
use nut_blast.Base.{
  ℕ, ◌≡◌, refl, sym, subst, false, Option, none, [], arith, nat_eq, string_eq, Dict, lookup,
}
use nut_blast.Float.{Float}
use nut_blast.Protocol.Basic.{BasicId, lobby_id_eq}
use nut_blast.Blaster.{BlasterOperation, Reply, IpAddr, Env}
use nut_blast.Blaster.EventLoop.State.{BlasterEventLoop}
use nut_blast.Blaster.EventLoop.Rooms.{lobby_id}
use nut_blast.Blaster.Moves.Recv.{IsFresh, IsAdmissible}
use nut_blast.Blaster.Rights.Master.{ByMaster}
use nut_blast.Blaster.Rights.Recv.{ByPlayer}
use nut_blast.Blaster.Counts.{step}
use nut_blast.Session.{Session, Awaited, pong, listing, seat, send}
use nut_blast.Session.Dispatch.{resume}
use nut_blast.Session.Orders.{IsChecked, IsRequest, SeatRequest}
use nut_blast.Server.{Connection, Posted}
use nut_blast.Server.Posts.{IsPost, knock, request, order, close, prune, is_close}

-- The random ids that an operation draws are neither null nor in use.
abbrev pub IsFreshFor : {F : Float} → Env → BlasterOperation → BlasterEventLoop F → Type 0
IsFreshFor env (BlasterOperation.host_lobby ip gid m capacity listed pm sender) s =
    (lookup (lobby_id gid (env.random 0)) s.lobbies ≡ none) × IsFresh (env.random 1) s
IsFreshFor env (BlasterOperation.join_lobby ip lid pm sender) s = IsFresh (env.random 0) s
IsFreshFor env op s = Unit

-- An operation of a player counts no session.
pub ByPlayer-step :
    (pid : BasicId) (op : BlasterOperation) (reply : Reply) (j : IpAddr) (n : ℕ)
    → ByPlayer pid op
    → (step op reply j n ≡ n) × (is_close j op ≡ false)
ByPlayer-step pid _ reply j n (ByPlayer.as_master _ (ByMaster.capacity m)) = (refl, refl)
ByPlayer-step pid _ reply j n (ByPlayer.as_master _ (ByMaster.listed b)) = (refl, refl)
ByPlayer-step pid _ reply j n (ByPlayer.as_master _ (ByMaster.master new_master)) = (refl, refl)
ByPlayer-step pid _ reply j n (ByPlayer.as_master _ (ByMaster.lobby_meta key value)) = (refl, refl)
ByPlayer-step pid _ reply j n (ByPlayer.as_master _ (ByMaster.no_lobby_meta key)) = (refl, refl)
ByPlayer-step pid _ reply j n (ByPlayer.as_master _ (ByMaster.kick kickee)) = (refl, refl)
ByPlayer-step pid _ reply j n (ByPlayer.player_meta key value) = (refl, refl)
ByPlayer-step pid _ reply j n (ByPlayer.no_player_meta key) = (refl, refl)
ByPlayer-step pid _ reply j n (ByPlayer.message to msg) = (refl, refl)
ByPlayer-step pid _ reply j n (ByPlayer.leaving reason) = (refl, refl)
ByPlayer-step pid _ reply j n ByPlayer.ping = (refl, refl)

module _ {F : Float} where
  -- The arguments of what is posted have been validated.
  ByPlayer-IsAdmissible :
      (env : Env) (pid : BasicId) (op : BlasterOperation) (s : BlasterEventLoop F)
      → ByPlayer pid op
      → IsChecked op
      → IsAdmissible env 15 op s
  ByPlayer-IsAdmissible env pid _ s (ByPlayer.as_master _ (ByMaster.capacity n)) c = c.1
  ByPlayer-IsAdmissible env pid _ s (ByPlayer.as_master _ (ByMaster.listed b)) c = tt
  ByPlayer-IsAdmissible env pid _ s (ByPlayer.as_master _ (ByMaster.master new_master)) c = tt
  ByPlayer-IsAdmissible env pid _ s (ByPlayer.as_master _ (ByMaster.lobby_meta key value)) c = tt
  ByPlayer-IsAdmissible env pid _ s (ByPlayer.as_master _ (ByMaster.no_lobby_meta key)) c = tt
  ByPlayer-IsAdmissible env pid _ s (ByPlayer.as_master _ (ByMaster.kick kickee)) c = tt
  ByPlayer-IsAdmissible env pid _ s (ByPlayer.player_meta key value) c = tt
  ByPlayer-IsAdmissible env pid _ s (ByPlayer.no_player_meta key) c = tt
  ByPlayer-IsAdmissible env pid _ s (ByPlayer.message to msg) c = tt
  ByPlayer-IsAdmissible env pid _ s (ByPlayer.leaving reason) c = tt
  ByPlayer-IsAdmissible env pid _ s ByPlayer.ping c = tt

  -- The same of a request, and that it is admissible.
  Request-IsAdmissible :
      (env : Env) (q : Session F) (op : BlasterOperation) (a : Awaited) (s : BlasterEventLoop F)
      → IsRequest q op a
      → IsFreshFor env op s
      → IsAdmissible env 15 op s
  Request-IsAdmissible env q op pong s (pid, known, e) fresh =
      subst (λ o. IsAdmissible env 15 o s) (sym e) tt
  Request-IsAdmissible env q op listing s (gid, limit, stranger, g, e) fresh =
      subst (λ o. IsAdmissible env 15 o s) (sym e) tt
  Request-IsAdmissible env q op seat s (stranger, SeatRequest.host gid l p n b hg hn hl hp e)
        fresh =
      let fresh' = subst (λ o. IsFreshFor env o s) e fresh in
      subst (λ o. IsAdmissible env 15 o s) (sym e) (hn.1, hl.0, hp.0, fresh'.0, fresh'.1)
  Request-IsAdmissible env q op seat s (stranger, SeatRequest.join lid p hg hp e) fresh =
      let fresh' = subst (λ o. IsFreshFor env o s) e fresh in
      subst (λ o. IsAdmissible env 15 o s) (sym e) (hp.0, fresh')

  pub Request-step :
      (q : Session F) (op : BlasterOperation) (a : Awaited) (reply : Reply) (j : IpAddr) (n : ℕ)
      → IsRequest q op a
      → (step op reply j n ≡ n) × (is_close j op ≡ false)
  Request-step q op pong reply j n (pid, known, e) = rw e (refl, refl)
  Request-step q op listing reply j n (gid, limit, stranger, g, e) = rw e (refl, refl)
  Request-step q op seat reply j n (stranger, SeatRequest.host gid l p m b hg hn hl hp e) =
      rw e (refl, refl)
  Request-step q op seat reply j n (stranger, SeatRequest.join lid p hg hp e) = rw e (refl, refl)

  pub IsPost-IsAdmissible :
      (env : Env) (connections : Dict ℕ (Connection F)) (p : Posted) (s : BlasterEventLoop F)
      → IsPost connections p
      → IsFreshFor env p.op s
      → IsAdmissible env 15 p.op s
  IsPost-IsAdmissible env connections p s (knock id ip e from there) fresh =
      subst (λ o. IsAdmissible env 15 o s) (sym e) tt
  IsPost-IsAdmissible env connections p s (request id q a from there r) fresh =
      Request-IsAdmissible env q p.op a s r fresh
  IsPost-IsAdmissible env connections p s (order pid from own sound) fresh =
      ByPlayer-IsAdmissible env pid p.op s own sound
  IsPost-IsAdmissible env connections p s (close ip from e) fresh =
      subst (λ o. IsAdmissible env 15 o s) (sym e) tt
  IsPost-IsAdmissible env connections p s (prune from e) fresh =
      subst (λ o. IsAdmissible env 15 o s) (sym e) tt

  -- What is left of a session after an answer.
  pub resume_lem :
      (a : Awaited) (reply : Option Reply) (q : Session F)
      → ((resume a reply q).executed ≡ []) × ((resume a reply q).session.real_ip ≡ q.real_ip)
  unfolding resume send
  resume_lem pong reply q = ground arith
  resume_lem listing reply q = ground arith
  resume_lem seat reply q = ground arith

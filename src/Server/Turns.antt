-- ===== src/Server/Turns.antt =====
-- What a session's turn does to its connection and to the queue, the handle of
-- server/src/blaster/mod.rs included.
use nut_blast.Base.{
  ℕ, ◌+◌, ◌≤◌, ◌≡◌, refl, sym, ap, Bool, true, false, Option, none, some, List, [], ◌∷◌, ◌++◌, map,
  arith, ◌==◌, nat_eq, Dict, insert, lookup-insert_self, Bool-cases, inl, inr, Result, ok, err,
  if◌then◌else◌,
}
use nut_blast.Float.{Float}
use nut_blast.Protocol.Basic.{BasicId}
use nut_blast.Protocol.Payloads.{Kick, ServerMessage}
use nut_blast.Blaster.{BlasterOperation, IpAddr}
use nut_blast.Blaster.Rights.Master.{ByMaster}
use nut_blast.Blaster.Rights.Recv.{ByPlayer}
use nut_blast.Session.{Session, Turned, Turn, done, waits, Awaited, pong, listing, seat, send}
use nut_blast.Session.Serve.{Round, conclude, farewell}
use nut_blast.Session.Orders.{IsChecked, SameClient, EachOrder, IsTurn, IsRequest, SeatRequest}
use nut_blast.Session.Orders.Laws.{IsRequest-of_same}
use nut_blast.Server.{Connection, serving, waiting, Posted, send_off, leave, proceed}
use nut_blast.Server.Posts.{
  EachPost, EachPost-append, order, close, request, asks, asks-append, closing, closing-append,
  is_close,
}

-- Operations of players, with validated arguments.
abbrev pub EachOwn : List BlasterOperation → Type 0
EachOwn [] = Unit
EachOwn (op ∷ ops) = EachOwn ops × (pid : BasicId) × ByPlayer pid op × IsChecked op

EachOwn-append : (xs ys : List BlasterOperation) → EachOwn xs → EachOwn ys → EachOwn (xs ++ ys)
EachOwn-append [] ys hx hy = hy
EachOwn-append (x ∷ xs) ys hx hy = (EachOwn-append xs ys hx.0 hy, hx.1, hx.2, hx.3)

is_close-ByPlayer :
    (ip : IpAddr) (pid : BasicId) (op : BlasterOperation) → ByPlayer pid op → is_close ip op ≡ false
is_close-ByPlayer ip pid _ (ByPlayer.as_master _ (ByMaster.capacity n)) = refl
is_close-ByPlayer ip pid _ (ByPlayer.as_master _ (ByMaster.listed b)) = refl
is_close-ByPlayer ip pid _ (ByPlayer.as_master _ (ByMaster.master new_master)) = refl
is_close-ByPlayer ip pid _ (ByPlayer.as_master _ (ByMaster.lobby_meta key value)) = refl
is_close-ByPlayer ip pid _ (ByPlayer.as_master _ (ByMaster.no_lobby_meta key)) = refl
is_close-ByPlayer ip pid _ (ByPlayer.as_master _ (ByMaster.kick kickee)) = refl
is_close-ByPlayer ip pid _ (ByPlayer.player_meta key value) = refl
is_close-ByPlayer ip pid _ (ByPlayer.no_player_meta key) = refl
is_close-ByPlayer ip pid _ (ByPlayer.message to msg) = refl
is_close-ByPlayer ip pid _ (ByPlayer.leaving reason) = refl
is_close-ByPlayer ip pid _ ByPlayer.ping = refl

closing-EachOwn :
    (ip : IpAddr) (ops : List BlasterOperation) → EachOwn ops → closing ip (map send_off ops) ≡ 0
unfolding closing
closing-EachOwn ip [] h = refl
closing-EachOwn ip (op ∷ ops) (hs, pid, own, sound) =
    ground (arith, is_close-ByPlayer ip pid op own, closing-EachOwn ip ops hs)

asks-send_off : (j : ℕ) (ops : List BlasterOperation) → asks j (map send_off ops) ≡ 0
unfolding asks
asks-send_off j [] = refl
asks-send_off j (op ∷ ops) = omega (arith, asks-send_off j ops)

module _ {F : Float} where
  -- A session that a connection holds for an address.
  abbrev pub held : IpAddr → Connection F → ℕ
  held ip (Connection.greeted j) = if j == ip then 1 else 0
  held ip (Connection.serving s) = if s.real_ip == ip then 1 else 0
  held ip (Connection.waiting s a) = if s.real_ip == ip then 1 else 0
  held ip c = 0

  -- A change of a connection, with what it posts: its session is still held, or its close is posted;
  -- what is posted is in order, and the connection waits for one operation at most.
  pub record IsMove (id : ℕ) (connections : Dict ℕ (Connection F)) (old : Connection F)
      (r : Connection F × List Posted) : Type 0 where
    pub balance : (ip : IpAddr) → held ip r.0 + closing ip r.1 ≡ held ip old
    pub posts : EachPost (insert id r.0 connections) r.1
    pub once : (j : ℕ) → asks j r.1 ≤ (if j == id then 1 else 0)

  EachPost-EachOwn :
      (connections : Dict ℕ (Connection F)) (ops : List BlasterOperation)
      → EachOwn ops
      → EachPost connections (map send_off ops)
  EachPost-EachOwn connections [] h = tt
  EachPost-EachOwn connections (op ∷ ops) (hs, pid, own, sound) =
      (EachPost-EachOwn connections ops hs, order pid refl own sound)

  EachOwn-of_EachOrder :
      (s : Session F) (ops : List BlasterOperation) → EachOrder s ops → EachOwn ops
  EachOwn-of_EachOrder s [] h = tt
  EachOwn-of_EachOrder s (op ∷ ops) (hs, (pid, known, own, sound)) =
      (EachOwn-of_EachOrder s ops hs, pid, own, sound)

  is_close-IsRequest :
      (ip : IpAddr) (s : Session F) (op : BlasterOperation) (a : Awaited)
      → IsRequest s op a
      → is_close ip op ≡ false
  is_close-IsRequest ip s op pong (pid, known, e) = ap (is_close ip) e
  is_close-IsRequest ip s op listing (gid, limit, stranger, g, e) = ap (is_close ip) e
  is_close-IsRequest ip s op seat (stranger, SeatRequest.host gid l p n b hg hn hl hp e) =
      ap (is_close ip) e
  is_close-IsRequest ip s op seat (stranger, SeatRequest.join lid p hg hp e) = ap (is_close ip) e

  farewell-EachOwn : (s : Session F) → EachOwn (farewell s)
  unfolding farewell
  farewell-EachOwn s = by_pid s.pid
    where
      by_pid :
          (o : Option BasicId)
          → EachOwn (elim o [
            | none ↦ []
            | some pid ↦ BlasterOperation.remove_player pid s.bye_reason ∷ []
          ])
      by_pid none = tt
      by_pid (some pid) = (tt, pid, ByPlayer.leaving s.bye_reason, tt)

  -- A split on how the loop comes to go on or to stop.
  pub by_verdict :
      (P : Round F → Type 0) (v : Result Kick (Unit {0})) (stop : Bool) (broken : Kick → Round F)
      (stopped goes : Round F)
      → ((reason : Kick) → P (broken reason))
      → P stopped
      → P goes
      → P (elim v [ err reason ↦ broken reason | ok _ ↦ if stop then stopped else goes ])
  by_verdict P (err reason) stop broken stopped goes hb hs hg = hb reason
  by_verdict P (ok x) true broken stopped goes hb hs hg = hs
  by_verdict P (ok x) false broken stopped goes hb hs hg = hg

  -- What a round leaves of its session, and what it executed.
  conclude-EachOwn :
      (t : Turned F)
      → EachOwn t.executed
      → EachOwn (conclude t).executed × ((conclude t).session.real_ip ≡ t.session.real_ip)
  unfolding conclude send
  conclude-EachOwn t h =
      by_verdict (λ r. EachOwn r.executed × (r.session.real_ip ≡ t.session.real_ip)) t.verdict
        t.session.stop _ _ _
        (λ reason. (
          EachOwn-append t.executed _ h
              (farewell-EachOwn (send (ServerMessage.disconnected reason) t.session)),
          refl,
        ))
        (EachOwn-append t.executed _ h (farewell-EachOwn t.session), refl) (h, refl)

  leave-IsMove :
      (id : ℕ) (connections : Dict ℕ (Connection F)) (old : Connection F) (r : Round F)
      → ((ip : IpAddr) → held ip old ≡ (if r.session.real_ip == ip then 1 else 0))
      → EachOwn r.executed
      → IsMove id connections old (leave r)
  unfolding leave closing asks
  leave-IsMove id connections old r same own =
      let bye = send_off (BlasterOperation.close_session r.session.real_ip) ∷ [] in
      elim (Bool-cases r.goes_on) [
        | inl goes ↦ rw goes (record {
          balance = λ ip. ground (arith, same ip, closing-EachOwn ip r.executed own);
          posts = EachPost-EachOwn _ r.executed own;
          once = λ j. ground (arith, asks-send_off j r.executed);
        })
        | inr ends ↦ rw ends (record {
          balance = λ ip. ground (
            arith,
            same ip,
            closing-EachOwn ip r.executed own,
            closing-append ip (map send_off r.executed) bye,
          );
          posts =
              EachPost-append _ (map send_off r.executed) bye (EachPost-EachOwn _ r.executed own)
                (tt, close r.session.real_ip refl refl);
          once = λ j.
              ground
                (arith, asks-send_off j r.executed, asks-append j (map send_off r.executed) bye);
        })
      ]

  pub settled-IsMove :
      (id : ℕ) (connections : Dict ℕ (Connection F)) (old : Connection F) (t : Turned F)
      → ((ip : IpAddr) → held ip old ≡ (if t.session.real_ip == ip then 1 else 0))
      → EachOwn t.executed
      → IsMove id connections old (leave (conclude t))
  settled-IsMove id connections old t same own =
      let (sound, kept) = conclude-EachOwn t own in
      leave-IsMove id connections old (conclude t) (λ ip. rw kept (same ip)) sound

  -- A turn of a session that its connection serves.
  pub proceed-IsMove :
      (id : ℕ) (connections : Dict ℕ (Connection F)) (s : Session F) (t : Turn F)
      → IsTurn s t
      → IsMove id connections (serving s) (proceed id t)
  unfolding proceed closing asks
  proceed-IsMove id connections s (done t) (c, h) =
      settled-IsMove id connections (serving s) t (λ ip. rw c.real_ip refl)
        (EachOwn-of_EachOrder s t.executed h)
  proceed-IsMove id connections s (waits s' op a) (c, h) =
      let back : SameClient s' s = record {
        pid = sym c.pid;
        real_ip = sym c.real_ip;
        msg_sender = sym c.msg_sender;
      } in
      record {
        balance = λ ip. ground (arith, is_close-IsRequest ip s op a h, c.real_ip);
        posts = (
          tt,
          request id s' a refl (lookup-insert_self id (waiting s' a) connections)
              (IsRequest-of_same s' s back op a h),
        );
        once = λ j. ground (arith, nat_eq.same_iff id j, nat_eq.same_iff j id);
      }

-- ===== src/Server/Invariant/Work.antt =====
-- The event loop of server/src/blaster/mod.rs takes an operation from the queue.
use nut_blast.Base.{
  ℕ, ◌+◌, ◌-◌, ◌≤◌, ◌≡◌, refl, sym, ◌∙◌, ap, subst, true, false, Option, none, some, List, ◌∷◌,
  arith, ◌==◌, nat_eq, string_eq, lookup, insert, tally, tally-insert_old, if◌then◌else◌,
  append-nil,
}
use nut_blast.Float.{Float}
use nut_blast.Protocol.Basic.{BasicId, lobby_id_eq}
use nut_blast.Blaster.{BlasterOperation, Reply, IpAddr, Env}
use nut_blast.Blaster.EventLoop.{Outcome, recv}
use nut_blast.Blaster.Moves.{Moves}
use nut_blast.Blaster.Moves.Recv.{Ends, recv-Moves}
use nut_blast.Blaster.Invariant.{IsWalk}
use nut_blast.Blaster.Invariant.Reach.{Moves-IsValid}
use nut_blast.Blaster.Bounds.{Moves-IsBounded}
use nut_blast.Blaster.Rights.Recv.{ByPlayer}
use nut_blast.Blaster.Counts.{live, step}
use nut_blast.Blaster.Counts.Run.{Counted, recv-Counted}
use nut_blast.Session.{Session, Awaited}
use nut_blast.Session.Dispatch.{resume}
use nut_blast.Session.Orders.{IsRequest}
use nut_blast.Server.{
  Connection, knocking, waiting, Posted, Server, put, answered, give, deliver, is_welcome,
}
use nut_blast.Server.Posts.{
  IsPost, knock, request, order, close, prune, EachPost, EachPost-insert, asks, closing, is_close,
}
use nut_blast.Server.Turns.{held, EachOwn, settled-IsMove}
use nut_blast.Server.Invariant.{IsSane, put-IsSane}
use nut_blast.Server.Invariant.Ops.{
  IsFreshFor, ByPlayer-step, Request-step, IsPost-IsAdmissible, resume_lem,
}

step_knock :
    (ip : IpAddr) (reply : Reply) (j : IpAddr) (n : ℕ)
    → step (BlasterOperation.introduce_session ip) reply j n
      ≡ (if is_welcome (some reply) then if ip == j then n + 1 else n else n)
step_knock ip Reply.nothing j n = refl
step_knock ip (Reply.listing r) j n = refl
step_knock ip (Reply.joined r) j n = refl
step_knock ip (Reply.introduced true) j n = refl
step_knock ip (Reply.introduced false) j n = refl
step_knock ip (Reply.pong m) j n = refl

module _ {F : Float} where
  pub give_lem :
      (id : ℕ) (c : Connection F) (reply : Option Reply) (s : Server F)
      → lookup id s.connections ≡ some c
      → give (some id) reply s ≡ put id (answered reply c) s
  unfolding give
  give_lem id c reply s there = ground (arith, there)

  -- The state of the event loop after the operation, and what it answers.
  module _ (env : Env) (p : Posted) (s : Server F) (o : Outcome F) (posts : List Posted)
      (e : s.queue ≡ p ∷ posts) (did : recv env p.op s.loop ≡ some o) (walk : IsWalk env)
      (fresh : IsFreshFor env p.op s.loop) (h : IsSane s) where
    first : EachPost s.connections (p ∷ posts)
    first = subst (EachPost s.connections) e h.posts

    taken : (id : ℕ) → asks id (p ∷ posts) ≤ 1
    taken id = subst (λ q. asks id q ≤ 1) e (h.once id)

    moved : Moves env 15 s.loop o.state
    moved = subst (Ends (Moves env 15 s.loop)) did (
        recv-Moves env 15 p.op s.loop
          (IsPost-IsAdmissible env s.connections p s.loop first.1 fresh))

    counted : (j : IpAddr) → Counted p.op j s.loop (some o)
    counted j = subst (Counted p.op j s.loop) did (recv-Counted env p.op j s.loop h.keyed)

    slots :
        (ip : IpAddr)
        → live ip s.loop.peers ≡ tally (held ip) s.connections + closing ip (p ∷ posts)
    slots ip =
        subst (λ q. live ip s.loop.peers ≡ tally (held ip) s.connections + closing ip q) e
          (h.slots ip)

    abbrev after : Server F
    after = record s { loop = o.state; queue = posts; mails = deliver s.mails o.sent }

    after-IsSane :
        ((ip : IpAddr) → live ip o.state.peers ≡ tally (held ip) s.connections + closing ip posts)
        → IsSane after
    unfolding asks
    after-IsSane balance = record {
      posts = first.0;
      once = λ id. omega (arith, taken id);
      keyed = (counted 0).0;
      slots = balance;
      valid = Moves-IsValid walk moved h.valid;
      bounded = Moves-IsBounded (omega arith) moved h.bounded;
    }

    -- Nobody waits for an operation any more that is taken.
    quiet : (id : ℕ) → p.from ≡ some id → asks id posts ≡ 0
    unfolding asks
    quiet id from = ground (arith, taken id, from, nat_eq.same_iff id id)

    ordered-IsSane :
        (pid : BasicId)
        → p.from ≡ none
        → ByPlayer pid p.op
        → IsSane (give p.from (some o.reply) after)
    unfolding give closing
    ordered-IsSane pid from own =
        subst (λ f. IsSane (give f (some o.reply) after)) (sym from)
          (after-IsSane (λ ip.
            let (same, open_) = ByPlayer-step pid p.op o.reply ip (live ip s.loop.peers) own in
            ground (arith, (counted ip).1, same, open_, slots ip)))

    pruned-IsSane :
        p.from ≡ none → p.op ≡ BlasterOperation.prune → IsSane (give p.from (some o.reply) after)
    unfolding give closing
    pruned-IsSane from op =
        subst (λ f. IsSane (give f (some o.reply) after)) (sym from)
          (after-IsSane (λ ip.
            let same : step p.op o.reply ip (live ip s.loop.peers) ≡ live ip s.loop.peers =
              rw op refl in
            let stays : is_close ip p.op ≡ false = ap (is_close ip) op in
            ground (arith, (counted ip).1, same, stays, slots ip)))

    closed-IsSane :
        (j : IpAddr)
        → p.from ≡ none
        → p.op ≡ BlasterOperation.close_session j
        → IsSane (give p.from (some o.reply) after)
    unfolding give closing
    closed-IsSane j from op =
        subst (λ f. IsSane (give f (some o.reply) after)) (sym from)
          (after-IsSane (λ ip.
            let n = live ip s.loop.peers in
            let less : step p.op o.reply ip n ≡ (if j == ip then n - 1 else n) = rw op refl in
            let one : is_close ip p.op ≡ (j == ip) = ap (is_close ip) op in
            ground (arith, (counted ip).1, less, one, slots ip)))

    requested-IsSane :
        (id : ℕ) (q : Session F) (a : Awaited)
        → p.from ≡ some id
        → lookup id s.connections ≡ some (waiting q a)
        → IsRequest q p.op a
        → IsSane (give p.from (some o.reply) after)
    unfolding answered closing
    requested-IsSane id q a from there r =
        let back = resume_lem a (some o.reply) q in
        subst (λ f. IsSane (give f (some o.reply) after)) (sym from)
          (subst IsSane (sym (give_lem id (waiting q a) (some o.reply) after there)) (
            put-IsSane id (waiting q a) (answered (some o.reply) (waiting q a)) after there
              (quiet id from)
              (settled-IsMove id s.connections (waiting q a) (resume a (some o.reply) q)
                (λ ip. rw back.1 refl) (subst EachOwn (sym back.0) tt))
              (after-IsSane (λ ip.
                let (same, stays) = Request-step q p.op a o.reply ip (live ip s.loop.peers) r in
                ground (arith, (counted ip).1, same, stays, slots ip)))))

    knocked-IsSane :
        (id : ℕ) (j : IpAddr)
        → p.op ≡ BlasterOperation.introduce_session j
        → p.from ≡ some id
        → lookup id s.connections ≡ some (knocking j)
        → IsSane (give p.from (some o.reply) after)
    unfolding answered closing asks
    knocked-IsSane id j op from there =
        let c = (answered (some o.reply) (knocking j)).0 in
        subst (λ f. IsSane (give f (some o.reply) after)) (sym from)
          (subst IsSane (sym (give_lem id (knocking j) (some o.reply) after there)) (record {
            posts =
                subst (EachPost (insert id c s.connections)) (sym (append-nil posts))
                  (EachPost-insert id c s.connections posts (quiet id from) first.0);
            once = λ i. subst (λ q. asks i q ≤ 1) (sym (append-nil posts)) (omega (arith, taken i));
            keyed = (counted 0).0;
            slots = λ ip.
                let n = live ip s.loop.peers in
                let more : step p.op o.reply ip n
                    ≡ (if is_welcome (some o.reply) then if j == ip then n + 1 else n else n) =
                  ap (λ x. step x o.reply ip n) op ∙ step_knock j o.reply ip n in
                let stays : is_close ip p.op ≡ false = ap (is_close ip) op in
                let weighed = tally-insert_old (held ip) id c (knocking j) s.connections there in
                subst
                  (λ q.
                    live ip o.state.peers
                    ≡ tally (held ip) (insert id c s.connections) + closing ip q)
                  (sym (append-nil posts))
                  (ground (arith, (counted ip).1, more, stays, slots ip, weighed));
            valid = Moves-IsValid walk moved h.valid;
            bounded = Moves-IsBounded (omega arith) moved h.bounded;
          }))

    by_post : IsPost s.connections p → IsSane (give p.from (some o.reply) after)
    by_post (knock id ip op from there) = knocked-IsSane id ip op from there
    by_post (request id q a from there r) = requested-IsSane id q a from there r
    by_post (order pid from own sound) = ordered-IsSane pid from own
    by_post (close ip from op) = closed-IsSane ip from op
    by_post (prune from op) = pruned-IsSane from op

    -- The event loop takes an operation that a task has posted, and answers.
    pub worked-IsSane : IsSane (give p.from (some o.reply) after)
    worked-IsSane = by_post first.1

-- ===== src/Server/Owners/History.antt =====
-- No player is left behind, server/src.
use nut_blast.Base.{
  ℕ, ◌≡◌, ◌⊎◌, refl, sym, ◌∙◌, ap, subst, true, false, Option, none, some, List, [], ◌∷◌, arith,
  nat_eq, String, lookup, Option-cases, inl, inr, none≢some, is_some, ok,
}
use mathlib.Core.Bool.{false≢true}
use nut_blast.Float.{Float}
use nut_blast.Config.{Config}
use nut_blast.Protocol.Basic.{BasicId}
use nut_blast.Protocol.Payloads.{ClientMessage}
use nut_blast.Blaster.{BlasterOperation, Reply, Env, IpAddr, Instant}
use nut_blast.Blaster.EventLoop.{Outcome, recv}
use nut_blast.Blaster.EventLoop.State as State
use nut_blast.Blaster.Invariant.Run.{recv-ne-none}
use nut_blast.Blaster.Population.{is_removal, is_seating, Peopled, recv-Peopled}
use nut_blast.Blaster.Rights.Master.{ByMaster}
use nut_blast.Blaster.Rights.Recv.{ByPlayer}
use nut_blast.Session.{Session, Awaited, pong, listing, seat, send}
use nut_blast.Session.Dispatch.{Event, idle, frame, broken, mail, resume}
use nut_blast.Session.Orders.{IsRequest}
use nut_blast.Session.Orders.Laws.{handle-IsTurn}
use nut_blast.Server.{
  Connection, knocking, greeted, serving, waiting, Posted, Server, Action, put, answered, give,
  deliver, serve, worked, act, history, start, next_mail,
}
use nut_blast.Server.Posts.{IsPost, knock, request, order, close, prune, EachPost}
use nut_blast.Server.Invariant.{IsSane}
use nut_blast.Server.Invariant.Work.{give_lem}
use nut_blast.Server.Invariant.History.{
  IsLuckyHistory, by_serving, by_greeted, act-IsSane, start-IsSane,
}
use nut_blast.Server.Owners.{
  player_of, HasOwner, Keeps, conclude-Keeps, proceed-Keeps, put-HasOwner, accept-HasOwner,
  post-HasOwner, taken-HasOwner, Keeps-HasOwner,
}

ByPlayer-is_seating :
    (pid : BasicId) (op : BlasterOperation) → ByPlayer pid op → is_seating op ≡ false
ByPlayer-is_seating pid _ (ByPlayer.as_master _ (ByMaster.capacity n)) = refl
ByPlayer-is_seating pid _ (ByPlayer.as_master _ (ByMaster.listed b)) = refl
ByPlayer-is_seating pid _ (ByPlayer.as_master _ (ByMaster.master new_master)) = refl
ByPlayer-is_seating pid _ (ByPlayer.as_master _ (ByMaster.lobby_meta key value)) = refl
ByPlayer-is_seating pid _ (ByPlayer.as_master _ (ByMaster.no_lobby_meta key)) = refl
ByPlayer-is_seating pid _ (ByPlayer.as_master _ (ByMaster.kick kickee)) = refl
ByPlayer-is_seating pid _ (ByPlayer.player_meta key value) = refl
ByPlayer-is_seating pid _ (ByPlayer.no_player_meta key) = refl
ByPlayer-is_seating pid _ (ByPlayer.message to msg) = refl
ByPlayer-is_seating pid _ (ByPlayer.leaving reason) = refl
ByPlayer-is_seating pid _ ByPlayer.ping = refl

module _ {F : Float} where
  -- Every player of the event loop has an owner.
  abbrev pub IsOwned : Server F → Type 0
  IsOwned s =
      (x : BasicId) → is_some (lookup x s.loop.players) ≡ true → HasOwner s.connections s.queue x

  put-IsOwned :
      (id : ℕ) (old : Connection F) (r : Connection F × List Posted) (s : Server F)
      → lookup id s.connections ≡ some old
      → ((x : BasicId) → player_of old ≡ some x → Keeps x r)
      → IsOwned s
      → IsOwned (put id r s)
  put-IsOwned id old r s there keeps h x alive =
      put-HasOwner id x old r s.connections s.queue there (keeps x) (h x alive)

  -- What is left of a session after the answer that gives it a player.
  seated-Keeps :
      (x : BasicId) (q : Session F)
      → Keeps x (answered (some (Reply.joined (ok x))) (waiting q seat))
  unfolding answered resume
  seated-Keeps x q = conclude-Keeps x (resume seat (some (Reply.joined (ok x))) q) refl

  resume_pong : (reply : Option Reply) (q : Session F) → (resume pong reply q).session.pid ≡ q.pid
  unfolding resume send
  resume_pong reply q = ground arith

  -- An answer takes no player from a session.
  answered-Keeps :
      (x : BasicId) (q : Session F) (op : BlasterOperation) (a : Awaited) (reply : Option Reply)
      → IsRequest q op a
      → q.pid ≡ some x
      → Keeps x (answered reply (waiting q a))
  unfolding answered
  answered-Keeps x q op pong reply r known =
      conclude-Keeps x (resume pong reply q) (resume_pong reply q ∙ known)
  answered-Keeps x q op listing reply (gid, limit, stranger, g, e) known =
      absurd (none≢some (sym stranger ∙ known))
  answered-Keeps x q op seat reply (stranger, r) known = absurd (none≢some (sym stranger ∙ known))

  module _ (env : Env) (p : Posted) (s : Server F) (o : Outcome F) (posts : List Posted)
      (e : s.queue ≡ p ∷ posts) (did : recv env p.op s.loop ≡ some o) (sane : IsSane s)
      (h : IsOwned s) where
    abbrev after : Server F
    after = record s { loop = o.state; queue = posts; mails = deliver s.mails o.sent }

    -- A player that was there, and does not go, keeps its owner.
    old_owner :
        (x : BasicId)
        → is_some (lookup x s.loop.players) ≡ true
        → is_removal x p.op ≡ false
        → HasOwner s.connections posts x
    old_owner x was stays =
        taken-HasOwner x s.connections p posts stays
          (subst (λ q. HasOwner s.connections q x) e (h x was))

    peopled :
        (x : BasicId)
        → is_some (lookup x o.state.players) ≡ true
        → HasOwner s.connections posts x
          ⊎ ((is_seating p.op ≡ true) × (o.reply ≡ Reply.joined (ok x)))
    peopled x alive = elim (Option-cases (lookup x o.state.players)) [
      | inl dead ↦ absurd (false≢true (ap is_some (sym dead) ∙ alive))
      | inr (q, there) ↦
          elim (subst (Peopled p.op s.loop) did (recv-Peopled env p.op s.loop) x q there) [
            | inl (was, stays) ↦ inl (old_owner x was stays)
            | inr made ↦ inr made
          ]
    ]

    -- Where nobody waits for the operation.
    unasked : p.from ≡ none → is_seating p.op ≡ false → IsOwned (give p.from (some o.reply) after)
    unfolding give
    unasked from plain =
        subst (λ f. IsOwned (give f (some o.reply) after)) (sym from)
          (λ x alive. elim (peopled x alive) [
            | inl owner ↦ owner
            | inr (seating, _) ↦ absurd (false≢true (sym plain ∙ seating))
          ])

    -- Where a connection waits for it.
    asked :
        (id : ℕ) (c : Connection F)
        → p.from ≡ some id
        → lookup id s.connections ≡ some c
        → ((x : BasicId) → player_of c ≡ some x → Keeps x (answered (some o.reply) c))
        → ((x : BasicId)
            → is_seating p.op ≡ true
            → o.reply ≡ Reply.joined (ok x)
            → Keeps x (answered (some o.reply) c))
        → IsOwned (give p.from (some o.reply) after)
    asked id c from there keeps seats =
        subst (λ f. IsOwned (give f (some o.reply) after)) (sym from)
          (subst IsOwned (sym (give_lem id c (some o.reply) after there)) (λ x alive.
            elim (peopled x alive) [
              | inl owner ↦
                  put-HasOwner id x c (answered (some o.reply) c) s.connections posts there
                    (keeps x) owner
              | inr (seating, made) ↦
                  Keeps-HasOwner id x (answered (some o.reply) c) s.connections posts
                    (seats x seating made)
            ]))

    worked-IsOwned : IsOwned (give p.from (some o.reply) after)
    worked-IsOwned = by_post (subst (EachPost s.connections) e sane.posts).1
      where
        by_post : IsPost s.connections p → IsOwned (give p.from (some o.reply) after)
        by_post (knock id ip op from there) =
            asked id (knocking ip) from there (λ x known. absurd (none≢some known))
              (λ x seating made. absurd (false≢true (sym (ap is_seating op) ∙ seating)))
        by_post (request id q pong from there (pid, known, op)) =
            asked id (waiting q pong) from there
              (λ x own. answered-Keeps x q p.op pong (some o.reply) (pid, known, op) own)
              (λ x seating made. absurd (false≢true (sym (ap is_seating op) ∙ seating)))
        by_post (request id q listing from there (gid, limit, stranger, g, op)) =
            asked id (waiting q listing) from there
              (λ x own. absurd (none≢some (sym stranger ∙ own)))
              (λ x seating made. absurd (false≢true (sym (ap is_seating op) ∙ seating)))
        by_post (request id q seat from there (stranger, r)) =
            asked id (waiting q seat) from there (λ x own. absurd (none≢some (sym stranger ∙ own)))
              (λ x seating made.
                subst (λ y. Keeps x (answered (some y) (waiting q seat))) (sym made)
                  (seated-Keeps x q))
        by_post (order pid from own sound) = unasked from (ByPlayer-is_seating pid p.op own)
        by_post (close ip from op) = unasked from (ap is_seating op)
        by_post (prune from op) = unasked from (ap is_seating op)

  module _ (config : Config) (parse : List ℕ → Option IpAddr)
      (read : String → Option ClientMessage) where
    serve-IsOwned :
        (id : ℕ) (now : ℕ → Instant) (event : Event) (s : Server F)
        → IsOwned s
        → IsOwned (serve config parse read id now event s)
    unfolding serve
    serve-IsOwned id now event s h = by_serving IsOwned (lookup id s.connections) _ s h (λ q there.
        put-IsOwned id (serving q) _ s there
          (λ x. proceed-Keeps id x q _ (handle-IsTurn read now event q)) h)

    work-IsOwned :
        (env : Env) (s : Server F)
        → IsSane s
        → IsOwned s
        → IsOwned (elim s.queue [ [] ↦ s | p ∷ rest ↦ worked config env p rest s ])
    unfolding worked
    work-IsOwned env s sane h = by_queue s.queue refl
      where
        by_queue :
            (q : List Posted)
            → s.queue ≡ q
            → IsOwned (elim q [ [] ↦ s | p ∷ rest ↦ worked config env p rest s ])
        by_queue [] e = h
        by_queue (p ∷ posts) e = elim (Option-cases (recv env p.op s.loop)) [
          | inl panicked ↦ absurd (recv-ne-none env p.op s.loop panicked)
          | inr (o, did) ↦ rw (did, worked) (worked-IsOwned env p s o posts e did sane h)
        ]

    act-IsOwned :
        (a : Action) (s : Server F) → IsSane s → IsOwned s → IsOwned (act config parse read a s)
    unfolding act
    act-IsOwned (Action.accept id local_address header) s sane h =
        elim (Option-cases (lookup id s.connections)) [
          | inr (c, there) ↦ rw (there, act) h
          | inl new ↦
              rw (new, act)
                (λ x alive. accept-HasOwner id x _ s.connections s.queue new (h x alive))
        ]
    act-IsOwned (Action.established id now) s sane h =
        by_greeted IsOwned (lookup id s.connections) _ s h
          (λ ip there. put-IsOwned id (greeted ip) _ s there (λ x own. absurd (none≢some own)) h)
    act-IsOwned (Action.refused id now) s sane h =
        by_greeted IsOwned (lookup id s.connections) _ s h
          (λ ip there. put-IsOwned id (greeted ip) _ s there (λ x own. absurd (none≢some own)) h)
    act-IsOwned Action.tick s sane h =
        λ x alive. post-HasOwner x s.connections s.queue _ (h x alive)
    act-IsOwned (Action.handle id now (mail msg)) s sane h = h
    act-IsOwned (Action.handle id now idle) s sane h = serve-IsOwned id now idle s h
    act-IsOwned (Action.handle id now (frame len msg)) s sane h =
        serve-IsOwned id now (frame len msg) s h
    act-IsOwned (Action.handle id now broken) s sane h = serve-IsOwned id now broken s h
    act-IsOwned (Action.receive id now) s sane h =
        by_serving IsOwned (lookup id s.connections) _ s h (λ q there.
          elim (Option-cases (next_mail id s.mails)) [
            | inl empty ↦ rw empty h
            | inr ((msg, left), e) ↦
                rw e (serve-IsOwned id now (mail msg) (record s { mails = left }) h)
          ])
    act-IsOwned (Action.work env) s sane h = work-IsOwned env s sane h

    pub history-IsOwned :
        (actions : List Action) (s : Server F)
        → IsLuckyHistory config parse read actions s
        → IsSane s
        → IsOwned s
        → IsOwned (history config parse read actions s)
    unfolding history
    history-IsOwned [] s lucky sane h = h
    history-IsOwned (a ∷ rest) s lucky sane h =
        history-IsOwned rest (act config parse read a s) lucky.1
          (act-IsSane config parse read a s lucky.0 sane) (act-IsOwned a s sane h)

    pub start-IsOwned : IsOwned (start {F = F} config)
    unfolding start State.new lookup
    start-IsOwned x alive = absurd (false≢true alive)

    -- Over any history of the server, of whose luck the same is supposed, every player of the event
    -- loop is one that the session of some connection speaks for, or one whose removal is in the
    -- queue: no player outlives its session.
    pub history-start-IsOwned :
        (actions : List Action)
        → IsLuckyHistory config parse read actions (start {F = F} config)
        → IsOwned (history {F = F} config parse read actions (start {F = F} config))
    history-start-IsOwned actions lucky =
        history-IsOwned actions (start config) lucky (start-IsSane config) start-IsOwned

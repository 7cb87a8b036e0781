-- ===== src/Server/Invariant/History.antt =====
-- The whole server over any interleaving of its tasks, server/src.
use nut_blast.Base.{
  ℕ, ◌+◌, ◌≡◌, refl, Bool, Option, none, some, List, [], ◌∷◌, ◌++◌, arith, nat_eq, String, Dict,
  lookup, tally, Option-cases, inl, inr,
}
use nut_blast.Float.{Float}
use nut_blast.Config.{Config}
use nut_blast.Protocol.Payloads.{ClientMessage}
use nut_blast.Blaster.{BlasterOperation, Env, IpAddr, Instant, Sent}
use nut_blast.Blaster.EventLoop.{recv}
use nut_blast.Blaster.EventLoop.State.{BlasterEventLoop}
use nut_blast.Blaster.EventLoop.State as State
use nut_blast.Blaster.EventLoop.Rooms.{opened_by}
use nut_blast.Blaster.Invariant.{IsValid, IsWalk}
use nut_blast.Blaster.Invariant.Reach.{new-IsValid}
use nut_blast.Blaster.Invariant.Run.{recv-ne-none}
use nut_blast.Blaster.Bounds.{IsBounded}
use nut_blast.Blaster.Counts.{live}
use nut_blast.Session.{Session}
use nut_blast.Session as Session
use nut_blast.Session.Dispatch.{Event, idle, frame, broken, mail}
use nut_blast.Session.Orders.Laws.{handle-IsTurn}
use nut_blast.Server.{
  Connection, greeted, serving, gone, Posted, Server, Action, send_off, serve, worked, act, history,
  start, next_mail,
}
use nut_blast.Server.Posts.{
  close, prune, EachPost-append, asks, asks-append, asks_quiet, closing, closing-append, is_quiet,
}
use nut_blast.Server.Turns.{held, IsMove, proceed-IsMove}
use nut_blast.Server.Invariant.{IsSane, put-IsSane, accept-IsSane}
use nut_blast.Server.Invariant.Ops.{IsFreshFor}
use nut_blast.Server.Invariant.Work.{worked-IsSane}

module _ {F : Float} where
  -- The walks over hash sets meet the elements of the sets, and the random ids that the operation
  -- draws are neither null nor in use.
  abbrev pub IsLuckyWith : Env → List Posted → BlasterEventLoop F → Type 0
  IsLuckyWith env [] s = Unit
  IsLuckyWith env (p ∷ ps) s = IsWalk env × IsFreshFor env p.op s

  abbrev pub IsLucky : Action → Server F → Type 0
  IsLucky (Action.work env) s = IsLuckyWith env s.queue s.loop
  IsLucky a s = Unit

  pub by_serving :
      (P : Server F → Type 0) (o : Option (Connection F)) (f : Session F → Server F) (s : Server F)
      → P s
      → ((q : Session F) → o ≡ some (serving q) → P (f q))
      → P (elim o [ some (Connection.serving q) ↦ f q | _ ↦ s ])
  by_serving P none f s h k = h
  by_serving P (some (Connection.knocking ip)) f s h k = h
  by_serving P (some (Connection.greeted ip)) f s h k = h
  by_serving P (some (Connection.serving q)) f s h k = k q refl
  by_serving P (some (Connection.waiting q a)) f s h k = h
  by_serving P (some Connection.gone) f s h k = h

  pub by_greeted :
      (P : Server F → Type 0) (o : Option (Connection F)) (f : IpAddr → Server F) (s : Server F)
      → P s
      → ((ip : IpAddr) → o ≡ some (greeted ip) → P (f ip))
      → P (elim o [ some (Connection.greeted ip) ↦ f ip | _ ↦ s ])
  by_greeted P none f s h k = h
  by_greeted P (some (Connection.knocking ip)) f s h k = h
  by_greeted P (some (Connection.greeted ip)) f s h k = k ip refl
  by_greeted P (some (Connection.serving q)) f s h k = h
  by_greeted P (some (Connection.waiting q a)) f s h k = h
  by_greeted P (some Connection.gone) f s h k = h

  quiet_lem :
      (id : ℕ) (c : Connection F) (s : Server F)
      → is_quiet (some c) ≡ Bool.true
      → lookup id s.connections ≡ some c
      → IsSane s
      → asks id s.queue ≡ 0
  quiet_lem id c s quiet there h = asks_quiet id s.connections s.queue (rw there quiet) h.posts

  established-IsMove :
      (id : ℕ) (ip : IpAddr) (now : ℕ → Instant) (connections : Dict ℕ (Connection F))
      → IsMove id connections (greeted ip) (serving (Session.new ip id now), [])
  unfolding Session.new asks closing
  established-IsMove id ip now connections = record {
    balance = λ j. omega arith;
    posts = tt;
    once = λ j. omega arith;
  }

  refused-IsMove :
      (id : ℕ) (ip : IpAddr) (connections : Dict ℕ (Connection F))
      → IsMove id connections (greeted ip) (gone, send_off (BlasterOperation.close_session ip) ∷ [])
  unfolding asks closing
  refused-IsMove id ip connections = record {
    balance = λ j. omega arith;
    posts = (tt, close ip refl refl);
    once = λ j. omega arith;
  }

  tick-IsSane :
      (s : Server F)
      → IsSane s
      → IsSane (record s { queue = s.queue ++ send_off BlasterOperation.prune ∷ [] })
  unfolding asks closing
  tick-IsSane s h =
      let post = send_off BlasterOperation.prune in
      record {
        posts = EachPost-append _ s.queue (post ∷ []) h.posts (tt, prune refl refl);
        once = λ id. omega (arith, asks-append id s.queue (post ∷ []), h.once id);
        keyed = h.keyed;
        slots = λ ip. omega (arith, h.slots ip, closing-append ip s.queue (post ∷ []));
        valid = h.valid;
        bounded = h.bounded;
      }

  pub mails-IsSane :
      (left : List Sent) (s : Server F) → IsSane s → IsSane (record s { mails = left })
  mails-IsSane left s h = record {
    posts = h.posts;
    once = h.once;
    keyed = h.keyed;
    slots = h.slots;
    valid = h.valid;
    bounded = h.bounded;
  }

  pub start-IsSane : (config : Config) → IsSane (start {F = F} config)
  unfolding start State.new live lookup tally closing asks opened_by
  start-IsSane config = record {
    posts = tt;
    once = λ id. omega arith;
    keyed = tt;
    slots = λ ip. omega arith;
    valid = new-IsValid config;
    bounded = record { lobbies = tt; players = tt; openers = λ ip. omega arith };
  }

  module _ (config : Config) (parse : List ℕ → Option IpAddr)
      (read : String → Option ClientMessage) where
    serve-IsSane :
        (id : ℕ) (now : ℕ → Instant) (event : Event) (s : Server F)
        → IsSane s
        → IsSane (serve config parse read id now event s)
    unfolding serve
    serve-IsSane id now event s h = by_serving IsSane (lookup id s.connections) _ s h (λ q there.
        put-IsSane id (serving q) _ s there (quiet_lem id (serving q) s refl there h)
          (proceed-IsMove id s.connections q _ (handle-IsTurn read now event q)) h)

    work-IsSane :
        (env : Env) (s : Server F)
        → IsLuckyWith env s.queue s.loop
        → IsSane s
        → IsSane (elim s.queue [ [] ↦ s | p ∷ rest ↦ worked config env p rest s ])
    unfolding worked
    work-IsSane env s lucky h = by_queue s.queue refl lucky
      where
        by_queue :
            (q : List Posted)
            → s.queue ≡ q
            → IsLuckyWith env q s.loop
            → IsSane (elim q [ [] ↦ s | p ∷ rest ↦ worked config env p rest s ])
        by_queue [] e lucky = h
        by_queue (p ∷ posts) e (walk, fresh) = elim (Option-cases (recv env p.op s.loop)) [
          | inl panicked ↦ absurd (recv-ne-none env p.op s.loop panicked)
          | inr (o, did) ↦ rw (did, worked) (worked-IsSane env p s o posts e did walk fresh h)
        ]

    pub act-IsSane :
        (a : Action) (s : Server F) → IsLucky a s → IsSane s → IsSane (act config parse read a s)
    unfolding act
    act-IsSane (Action.accept id local_address header) s lucky h =
        elim (Option-cases (lookup id s.connections)) [
          | inr (c, there) ↦ rw (there, act) h
          | inl new ↦ rw (new, act) (accept-IsSane id _ s new h)
        ]
    act-IsSane (Action.established id now) s lucky h =
        by_greeted IsSane (lookup id s.connections) _ s h (λ ip there.
          put-IsSane id (greeted ip) _ s there (quiet_lem id (greeted ip) s refl there h)
            (established-IsMove id ip now s.connections) h)
    act-IsSane (Action.refused id now) s lucky h =
        by_greeted IsSane (lookup id s.connections) _ s h (λ ip there.
          put-IsSane id (greeted ip) _ s there (quiet_lem id (greeted ip) s refl there h)
            (refused-IsMove id ip s.connections) h)
    act-IsSane Action.tick s lucky h = tick-IsSane s h
    act-IsSane (Action.handle id now (mail msg)) s lucky h = h
    act-IsSane (Action.handle id now idle) s lucky h = serve-IsSane id now idle s h
    act-IsSane (Action.handle id now (frame len msg)) s lucky h =
        serve-IsSane id now (frame len msg) s h
    act-IsSane (Action.handle id now broken) s lucky h = serve-IsSane id now broken s h
    act-IsSane (Action.receive id now) s lucky h =
        by_serving IsSane (lookup id s.connections) _ s h (λ q there.
          elim (Option-cases (next_mail id s.mails)) [
            | inl empty ↦ rw empty h
            | inr ((msg, left), e) ↦
                rw e (
                  serve-IsSane id now (mail msg) (record s { mails = left })
                    (mails-IsSane left s h))
          ])
    act-IsSane (Action.work env) s lucky h = work-IsSane env s lucky h

    -- The luck of a whole history.
    abbrev pub IsLuckyHistory : List Action → Server F → Type 0
    IsLuckyHistory [] s = Unit
    IsLuckyHistory (a ∷ rest) s = IsLucky a s × IsLuckyHistory rest (act config parse read a s)

    pub history-IsSane :
        (actions : List Action) (s : Server F)
        → IsLuckyHistory actions s
        → IsSane s
        → IsSane (history config parse read actions s)
    unfolding history
    history-IsSane [] s lucky h = h
    history-IsSane (a ∷ rest) s lucky h =
        history-IsSane rest (act config parse read a s) lucky.1 (act-IsSane a s lucky.0 h)

    -- From the start of the server, over any interleaving of its tasks and whatever the clients send,
    -- the event loop is well-formed, no lobby has more than 15 players, no lobby and no player more
    -- than 16 fields, and no address more than four lobbies; the random ids that are drawn are
    -- supposed to be neither null nor in use, and the walks over hash sets to meet the elements.
    pub history-start-IsValid :
        (actions : List Action)
        → IsLuckyHistory actions (start {F = F} config)
        → IsValid (history {F = F} config parse read actions (start {F = F} config)).loop
          × IsBounded 15 (history {F = F} config parse read actions (start {F = F} config)).loop
    history-start-IsValid actions lucky =
        let h = history-IsSane actions (start {F = F} config) lucky (start-IsSane config) in
        (h.valid, h.bounded)

-- Over any history of the server, of whose luck the same is supposed, the sessions that the event loop
-- counts for an address are those whose connections hold a handle, and those whose close is in the
-- queue: no session is lost, and no slot is kept by a connection that is gone.
pub live-history :
    (F : Float) (config : Config) (parse : List ℕ → Option IpAddr)
    (read : String → Option ClientMessage) (actions : List Action) (ip : IpAddr)
    → IsLuckyHistory config parse read actions (start {F = F} config)
    → let s = history {F = F} config parse read actions (start {F = F} config) in
      live ip s.loop.peers ≡ tally (held ip) s.connections + closing ip s.queue
live-history F config parse read actions ip lucky =
    (history-IsSane config parse read actions (start config) lucky (start-IsSane config)).slots ip

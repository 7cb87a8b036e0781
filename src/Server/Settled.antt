-- ===== src/Server/Settled.antt =====
-- A server whose clients are all gone settles, server/src.
use nut_blast.Base.{
  ℕ, ◌≡◌, refl, sym, ◌∙◌, ap, subst, true, Option, none, some, List, [], ◌∷◌, ◌++◌, map, length,
  arith, ◌==◌, nat_eq, String, Dict, lookup, insert, tally, append-nil, Option-cases, inl, inr,
  none≢some, some_inj, is_some, Bool-cases,
}
use mathlib.Core.Bool.{false≢true}
use nut_blast.Float.{Float}
use nut_blast.Config.{Config}
use nut_blast.Protocol.Basic.{BasicId, LobbyId, lobby_id_eq}
use nut_blast.Protocol.Payloads.{ClientMessage}
use nut_blast.Blaster.{Reply, Env, IpAddr}
use nut_blast.Blaster.EventLoop.{recv}
use nut_blast.Blaster.Invariant.Run.{recv-ne-none}
use nut_blast.Blaster.Counts.{live}
use nut_blast.Server.{
  Connection, gone, Posted, Server, Action, answered, give, deliver, worked, act, history, start,
}
use nut_blast.Server.Posts.{closing}
use nut_blast.Server.Turns.{held}
use nut_blast.Server.Invariant.{IsSane}
use nut_blast.Server.Invariant.History.{IsLuckyHistory, history-IsSane, start-IsSane}
use nut_blast.Server.Owners.{is_leaving, player_of}
use nut_blast.Server.Owners.History.{IsOwned, history-IsOwned, start-IsOwned}

-- Steps of the event loop only.
abbrev pub works : List Env → List Action
works = map (λ env. Action.work env)

module _ {F : Float} where
  -- Every task of a connection has ended.
  abbrev pub AllGone : Dict ℕ (Connection F) → Type 0
  AllGone [] = Unit
  AllGone ((id, c) ∷ d) = (c ≡ gone) × AllGone d

  -- No player, no lobby, and no session of any address.
  pub record IsDeserted (s : Server F) : Type 0 where
    pub players : (pid : BasicId) → lookup pid s.loop.players ≡ none
    pub lobbies : (lid : LobbyId) → lookup lid s.loop.lobbies ≡ none
    pub sessions : (ip : IpAddr) → live ip s.loop.peers ≡ 0

  tally-AllGone : (ip : IpAddr) (d : Dict ℕ (Connection F)) → AllGone d → tally (held ip) d ≡ 0
  unfolding tally
  tally-AllGone ip [] h = refl
  tally-AllGone ip ((id, c) ∷ d) (here, rest) = ground (arith, here, tally-AllGone ip d rest)

  lookup-AllGone :
      (id : ℕ) (c : Connection F) (d : Dict ℕ (Connection F))
      → AllGone d
      → lookup id d ≡ some c
      → c ≡ gone
  unfolding lookup
  lookup-AllGone id c [] h there = absurd (none≢some there)
  lookup-AllGone id c ((j, b) ∷ d) (here, rest) there = elim (Bool-cases (j == id)) [
    | inl same ↦ some_inj (sym (rw same at there)) ∙ here
    | inr apart ↦ lookup-AllGone id c d rest (rw apart at there)
  ]

  insert-AllGone :
      (id : ℕ) (c : Connection F) (d : Dict ℕ (Connection F))
      → c ≡ gone
      → AllGone d
      → AllGone (insert id c d)
  unfolding insert
  insert-AllGone id c [] e h = (e, tt)
  insert-AllGone id c ((j, b) ∷ d) e (here, rest) = elim (Bool-cases (j == id)) [
    | inl same ↦ rw same (e, rest)
    | inr apart ↦ rw apart (here, insert-AllGone id c d e rest)
  ]

  -- An answer that nobody waits for changes nothing.
  give-AllGone :
      (from : Option ℕ) (reply : Option Reply) (s : Server F)
      → AllGone s.connections
      → ((give from reply s).queue ≡ s.queue) × AllGone (give from reply s).connections
  unfolding give answered
  give-AllGone none reply s h = (refl, h)
  give-AllGone (some id) reply s h = elim (Option-cases (lookup id s.connections)) [
    | inl absent ↦ rw (give, absent) (refl, h)
    | inr (c, there) ↦
        let e : c ≡ gone = lookup-AllGone id c s.connections h there in
        rw (give, there, e) (append-nil s.queue, insert-AllGone id gone s.connections refl h)
  ]

  module _ (config : Config) (parse : List ℕ → Option IpAddr)
      (read : String → Option ClientMessage) where
    -- The event loop takes one operation, and none comes up.
    work-AllGone :
        (env : Env) (s : Server F) (p : Posted) (posts : List Posted)
        → s.queue ≡ p ∷ posts
        → AllGone s.connections
        → ((act config parse read (Action.work env) s).queue ≡ posts)
          × AllGone (act config parse read (Action.work env) s).connections
    unfolding act worked
    work-AllGone env s p posts e h = elim (Option-cases (recv env p.op s.loop)) [
      | inl panicked ↦ absurd (recv-ne-none env p.op s.loop panicked)
      | inr (o, did) ↦
          rw (act, e, worked, did)
            (give-AllGone p.from (some o.reply)
              (record s { loop = o.state; queue = posts; mails = deliver s.mails o.sent }) h)
    ]

    -- The event loop works off its queue.
    works-AllGone :
        (envs : List Env) (s : Server F) (queue : List Posted)
        → s.queue ≡ queue
        → length envs ≡ length queue
        → AllGone s.connections
        → ((history config parse read (works envs) s).queue ≡ [])
          × AllGone (history config parse read (works envs) s).connections
    unfolding history
    works-AllGone [] s [] e enough h = (e, h)
    works-AllGone [] s (p ∷ posts) e enough h = absurd (omega (arith, enough))
    works-AllGone (env ∷ envs) s [] e enough h = absurd (omega (arith, enough))
    works-AllGone (env ∷ envs) s (p ∷ posts) e enough h =
        let (left, still) = work-AllGone env s p posts e h in
        works-AllGone envs (act config parse read (Action.work env) s) posts left
          (omega (arith, enough)) still

  no_player :
      (s : Server F)
      → IsOwned s
      → s.queue ≡ []
      → AllGone s.connections
      → (pid : BasicId) → lookup pid s.loop.players ≡ none
  unfolding is_leaving
  no_player s owned empty h pid = elim (Option-cases (lookup pid s.loop.players)) [
    | inl none_there ↦ none_there
    | inr (p, there) ↦ absurd (elim (owned pid (ap is_some there)) [
      | inl (id, c, found, own) ↦
          none≢some (sym (ap player_of (lookup-AllGone id c s.connections h found)) ∙ own)
      | inr leaves ↦ false≢true (subst (λ q. is_leaving pid q ≡ true) empty leaves)
    ])
  ]

  deserted :
      (s : Server F) → IsSane s → IsOwned s → s.queue ≡ [] → AllGone s.connections → IsDeserted s
  unfolding closing
  deserted s sane owned empty h =
      let alone = no_player s owned empty h in
      record {
        players = alone;
        lobbies = λ lid. elim (Option-cases (lookup lid s.loop.lobbies)) [
          | inl none_there ↦ none_there
          | inr (l, there) ↦
              let (p, found, _) =
                sane.valid.guest lid l l.master there (sane.valid.rooms lid l there).master in
              absurd (none≢some (sym (alone l.master) ∙ found))
        ];
        sessions = λ ip.
            ground (arith, sane.slots ip, tally-AllGone ip s.connections h, ap (closing ip) empty);
      }

module _ {F : Float} (config : Config) (parse : List ℕ → Option IpAddr)
    (read : String → Option ClientMessage) where
  history-append :
      (xs ys : List Action) (s : Server F)
      → history config parse read (xs ++ ys) s
        ≡ history config parse read ys (history config parse read xs s)
  unfolding history
  history-append [] ys s = refl
  history-append (x ∷ xs) ys s = history-append xs ys (act config parse read x s)

  -- Over any history of the server in which, in the end, every task of a connection has ended, the
  -- event loop settles: once it has taken as many further operations as then stand in the queue,
  -- there is no player, no lobby, and no session of any address. Of the luck of the whole the same
  -- is supposed.
  pub history-works-IsDeserted :
      (actions : List Action) (envs : List Env)
      → IsLuckyHistory config parse read (actions ++ works envs) (start {F = F} config)
      → AllGone (history config parse read actions (start {F = F} config)).connections
      → length envs ≡ length (history config parse read actions (start {F = F} config)).queue
      → IsDeserted (history config parse read (actions ++ works envs) (start {F = F} config))
  history-works-IsDeserted actions envs lucky ended enough =
      let s : Server F = history config parse read actions (start config) in
      let (empty, still) = works-AllGone config parse read envs s s.queue refl enough ended in
      let e = history-append actions (works envs) (start config) in
      deserted (history config parse read (actions ++ works envs) (start config))
        (history-IsSane config parse read (actions ++ works envs) (start config) lucky
          (start-IsSane config))
        (history-IsOwned config parse read (actions ++ works envs) (start config) lucky
          (start-IsSane config) (start-IsOwned config parse read))
        (ap (λ t. t.queue) e ∙ empty) (subst (λ t. AllGone t.connections) (sym e) still)

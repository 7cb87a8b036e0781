-- ===== src/Blaster/Counts/Run.antt =====
-- The counts of sessions over a history, `recv` of server/src/blaster/eventloop.rs.
use nut_blast.Base.{
  IsKeyed, ◌≡◌, refl, ◌∙◌, ap, subst, Option, none, some, List, [], ◌∷◌, lookup, nat_eq,
  Option-cases, Bool-cases, inl, inr,
}
use nut_blast.Float.{Float}
use nut_blast.Config.{Config}
use nut_blast.Blaster.{BlasterOperation, Reply, Env, IpAddr}
use nut_blast.Blaster.EventLoop.{Outcome, recv, turn, run, answer}
use nut_blast.Blaster.EventLoop.State.{BlasterEventLoop, new, admit}
use nut_blast.Blaster.EventLoop.Sessions.{prune, introduce_session}
use nut_blast.Blaster.EventLoop.Rooms.{list_lobbies, add_to_index}
use nut_blast.Blaster.Moves.Rooms.{host_lobby-cases, join_lobby-cases}
use nut_blast.Blaster.Caps.Frame.{
  peers-set_capacity, peers-set_listed, peers-set_master, peers-set_lobby_meta,
  peers-erase_lobby_meta, peers-set_player_meta, peers-erase_player_meta, peers-remove_player,
}
use nut_blast.Blaster.Counts.{step, count, live, IsKeyed-filter, live-filter}
use nut_blast.Blaster.Counts.Steps.{
  introduce_session-live, close_session-live, cap_ip-live, cap_ip-IsKeyed,
  introduce_session-IsKeyed, close_session-IsKeyed,
}

module _ {F : Float} where
  -- The operation returns, no address stands twice after it, and the sessions of an address are
  -- counted as the answer says.
  abbrev pub Counted : BlasterOperation → IpAddr → BlasterEventLoop F → Option (Outcome F) → Type 0
  Counted op j s none = ⊥
  Counted op j s (some o) =
      IsKeyed o.state.peers × (live j o.state.peers ≡ step op o.reply j (live j s.peers))

  pub recv-Counted :
      (env : Env) (op : BlasterOperation) (j : IpAddr) (s : BlasterEventLoop F)
      → IsKeyed s.peers
      → Counted op j s (recv env op s)
  unfolding recv admit add_to_index list_lobbies prune
  recv-Counted env (BlasterOperation.assemble_pong pid) j s k = (k, refl)
  recv-Counted env (BlasterOperation.set_capacity pid capacity) j s k =
      rw (peers-set_capacity env pid s capacity) (k, refl)
  recv-Counted env (BlasterOperation.set_listed pid listed) j s k =
      rw (peers-set_listed env pid s listed) (k, refl)
  recv-Counted env (BlasterOperation.set_master pid new_master) j s k =
      rw (peers-set_master env pid s new_master) (k, refl)
  recv-Counted env (BlasterOperation.set_player_meta pid key value) j s k =
      rw (peers-set_player_meta env pid s key value) (k, refl)
  recv-Counted env (BlasterOperation.erase_player_meta pid key) j s k =
      rw (peers-erase_player_meta env pid s key) (k, refl)
  recv-Counted env (BlasterOperation.set_lobby_meta pid key value) j s k =
      rw (peers-set_lobby_meta env pid s key value) (k, refl)
  recv-Counted env (BlasterOperation.erase_lobby_meta pid key) j s k =
      rw (peers-erase_lobby_meta env pid s key) (k, refl)
  recv-Counted env (BlasterOperation.relay from to msg) j s k = (k, refl)
  recv-Counted env (BlasterOperation.list_lobbies ip gid limit) j s k =
      (cap_ip-IsKeyed ip (env.now 0) s k, cap_ip-live ip j (env.now 0) s)
  recv-Counted env (BlasterOperation.host_lobby ip gid m capacity listed pm sender) j s k =
      host_lobby-cases
        (λ r.
          Counted (BlasterOperation.host_lobby ip gid m capacity listed pm sender) j s (answer r))
        env ip gid m capacity listed pm sender s
        (λ r. (cap_ip-IsKeyed ip (env.now 0) s k, cap_ip-live ip j (env.now 0) s))
        (λ sent allowed. (cap_ip-IsKeyed ip (env.now 0) s k, cap_ip-live ip j (env.now 0) s))
  recv-Counted env (BlasterOperation.join_lobby ip lid pm sender) j s k =
      join_lobby-cases (λ r. Counted (BlasterOperation.join_lobby ip lid pm sender) j s (answer r))
        env ip lid pm sender s
        (λ r. (cap_ip-IsKeyed ip (env.now 0) s k, cap_ip-live ip j (env.now 0) s))
        (λ l sent there room. (cap_ip-IsKeyed ip (env.now 0) s k, cap_ip-live ip j (env.now 0) s))
  recv-Counted env (BlasterOperation.kick_player kicker kickee) j s k = (k, refl)
  recv-Counted env (BlasterOperation.remove_player pid reason) j s k =
      rw (peers-remove_player env pid s reason) (k, refl)
  recv-Counted env (BlasterOperation.introduce_session ip) j s k = (
    introduce_session-IsKeyed ip (env.now 0) s k,
    elim (Bool-cases (introduce_session ip (env.now 0) s).1) [
      | inl taken ↦ rw taken (rw taken at (introduce_session-live ip j (env.now 0) s))
      | inr refused ↦ rw refused (rw refused at (introduce_session-live ip j (env.now 0) s))
    ],
  )
  recv-Counted env BlasterOperation.prune j s k =
      (IsKeyed-filter (env.now 0) s.peers k, live-filter (env.now 0) j s.peers k)
  recv-Counted env (BlasterOperation.close_session ip) j s k =
      (close_session-IsKeyed ip (env.now 0) s k, close_session-live ip j (env.now 0) s)

  -- What each operation of a history was answered.
  pub replies :
      Config → List (Env × BlasterOperation) → BlasterEventLoop F → List (BlasterOperation × Reply)
  unfolding turn
  replies config [] s = []
  replies config ((env, op) ∷ ops) s =
      (op, elim (recv env op s) [ none ↦ Reply.nothing | some o ↦ o.reply ])
      ∷ replies config ops (turn config env op s)

  run-count :
      (config : Config) (ops : List (Env × BlasterOperation)) (j : IpAddr) (s : BlasterEventLoop F)
      → IsKeyed s.peers
      → live j (run config ops s).peers ≡ count (replies config ops s) j (live j s.peers)
  unfolding run turn replies
  run-count config [] j s k = refl
  run-count config ((env, op) ∷ ops) j s k = elim (Option-cases (recv env op s)) [
    | inl panicked ↦ absurd (subst (Counted op j s) panicked (recv-Counted env op j s k))
    | inr (o, e) ↦
        let (k', counted) = subst (Counted op j s) e (recv-Counted env op j s k) in
        let t = turn config env op s in
        let k'' : IsKeyed t.peers = rw (e, turn) k' in
        let counted' : live j t.peers ≡ step op o.reply j (live j s.peers) = rw (e, turn) counted in
        rw e (run-count config ops j t k'' ∙ ap (count (replies config ops t) j) counted')
  ]

-- Over any history from the loop's start, the sessions that the peers have for an address are those
-- that were introduced and accepted less those that were closed, down to none, whatever else was done between.
pub run-new-count :
    (F : Float) (config : Config) (ops : List (Env × BlasterOperation)) (j : IpAddr)
    → live j (run {F = F} config ops (new config)).peers
      ≡ count (replies {F = F} config ops (new config)) j 0
unfolding live new lookup
run-new-count F config ops j = run-count {F = F} config ops j (new config) tt

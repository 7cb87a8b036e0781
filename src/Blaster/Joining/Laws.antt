-- ===== src/Blaster/Joining/Laws.antt =====
-- What `JoinLobby` and `HostLobby` of server/src/blaster/eventloop.rs do, on every branch.
use nut_blast.Base.{
  Dict, ◌≡◌, ◌≢◌, ◌⊎◌, refl, sym, ◌∙◌, ap, subst, true, false, Option, none, some, List, [], lookup,
  contains, length, ◌<◌, ◌+◌, ◌≤◌, ◌==◌, ◌||◌, nat_eq, string_eq, Bool-cases, Option-cases, Result,
  ok, err, inl, inr, beq→eq, beq_refl, beq_false_of_ne, some_inj, arith, lookup-insert_self,
  lookup-insert_ne, contains-add, length-add_new,
}
use nut_blast.Float.{Float}
use nut_blast.Protocol.Basic.{BasicId, GameId, LobbyId, lobby_id_eq}
use nut_blast.Protocol.Metadata.{Metadata}
use nut_blast.Protocol.Payloads.{Kick}
use nut_blast.Blaster.{IpAddr, TokioSender, Instant, Lobby, Player, Env, Sent, is_full}
use nut_blast.Blaster.EventLoop.State.{
  BlasterEventLoop, sessions_per_ip_error, cap_ip, new_player, admit, enter, welcome,
}
use nut_blast.Blaster.EventLoop.Rooms.{lobby_not_found, lobby_full, join_lobby}
use nut_blast.Blaster.Invariant.{IsValid, IsWalk}
use nut_blast.Blaster.Invariant.Writes.{peers_written-IsValid}
use nut_blast.Blaster.Invariant.Arrivals.{newcomer_outside}
use nut_blast.Blaster.Moves.Rooms.{cap_ip-peers, insert_player_lem}
use nut_blast.Blaster.Metering.{IsMetered, IsHeldBack, IsLetIn, cap_ip-IsMetered}
use nut_blast.Blaster.Joining.{IsWelcome, welcome-IsWelcome}

module _ {F : Float} where
  -- The lobby `l'` is `l` with one more player.
  pub record IsWider (pid : BasicId) (l l' : Lobby F) : Type 0 where
    pub members : (x : BasicId) → contains x l'.players ≡ (pid == x || contains x l.players)
    pub one_more : length l'.players ≡ length l.players + 1
    pub master : l'.master ≡ l.master
    pub initiator : l'.initiator ≡ l.initiator
    pub metadata : l'.metadata ≡ l.metadata
    pub capacity : l'.capacity ≡ l.capacity
    pub listed : l'.listed ≡ l.listed

  -- In `t` the player is in the lobby, which was `l`; other players and lobbies are as in `s`.
  pub record IsEntered (pid : BasicId) (q : Player F) (lid : LobbyId) (l : Lobby F)
      (s t : BlasterEventLoop F) : Type 0 where
    pub peers : t.peers ≡ s.peers
    pub config : t.config ≡ s.config
    pub player : lookup pid t.players ≡ some q
    pub home : q.lid ≡ lid
    pub others : (x : BasicId) → x ≢ pid → lookup x t.players ≡ lookup x s.players
    pub elsewhere : (j : LobbyId) → j ≢ lid → lookup j t.lobbies ≡ lookup j s.lobbies
    pub room : (l' : Lobby F) × (lookup lid t.lobbies ≡ some l') × IsWider pid l l'

  enter-IsWider :
      (pid : BasicId) (l : Lobby F) → contains pid l.players ≡ false → IsWider pid l (enter pid l)
  unfolding enter
  enter-IsWider pid l new = record {
    members = λ x. contains-add pid x l.players;
    one_more = length-add_new pid l.players new;
    master = refl;
    initiator = refl;
    metadata = refl;
    capacity = refl;
    listed = refl;
  }

  admit-IsEntered :
      (pid : BasicId) (q : Player F) (lid : LobbyId) (l : Lobby F) (s : BlasterEventLoop F)
      → q.lid ≡ lid
      → contains pid l.players ≡ false
      → IsEntered pid q lid l s (admit pid q lid l s)
  unfolding admit
  admit-IsEntered pid q lid l s home new = record {
    peers = refl;
    config = refl;
    player = lookup-insert_self pid q s.players;
    home = home;
    others =
        λ x apart. lookup-insert_ne pid x q s.players (beq_false_of_ne pid x (λ e. apart (sym e)));
    elsewhere = λ j apart.
        lookup-insert_ne lid j (enter pid l) s.lobbies (beq_false_of_ne lid j (λ e. apart (sym e)));
    room = (enter pid l, lookup-insert_self lid (enter pid l) s.lobbies, enter-IsWider pid l new);
  }

  -- The newcomer `pid` stands in the lobby after the operation, with its metadata and its channel,
  -- and was introduced; the index of the games is then `gid_lobbies`.
  pub record IsSeated (pid : BasicId) (m : Metadata) (sender : TokioSender) (lid : LobbyId)
      (l : Lobby F) (gid_lobbies : Dict GameId (List BasicId)) (s : BlasterEventLoop F)
      (r : Option (BlasterEventLoop F × List Sent × Result Kick BasicId)) : Type 0 where
    pub q : Player F
    pub t : BlasterEventLoop F
    pub sent : List Sent
    pub metadata : q.metadata ≡ m
    pub channel : q.sender ≡ sender
    pub result : r ≡ some (t, sent, ok pid)
    pub entered : IsEntered pid q lid l s t
    pub index : t.gid_lobbies ≡ gid_lobbies
    pub welcomed : IsWelcome pid q l t sent

  pub insert_player-IsSeated :
      (env : Env) (sender : TokioSender) (pid : BasicId) (lid : LobbyId) (m : Metadata)
      (now bucket_now : Instant) (l : Lobby F) (s : BlasterEventLoop F)
      (r : Option (BlasterEventLoop F × List Sent × Result Kick BasicId))
      → IsWalk env
      → contains pid l.players ≡ false
      → ((x : BasicId) (p : Player F)
          → contains x l.players ≡ true
          → lookup x s.players ≡ some p
          → p.lid ≡ lid)
      → (let q = new_player lid l m sender now bucket_now in
          let t = admit pid q lid l s in r ≡ some (t, welcome env q pid l t, ok pid))
      → IsSeated pid m sender lid l s.gid_lobbies s r
  unfolding new_player admit
  insert_player-IsSeated env sender pid lid m now bucket_now l s r walk new members e =
      let q : Player F = new_player lid l m sender now bucket_now in
      let t : BlasterEventLoop F = admit pid q lid l s in
      let entered : IsEntered pid q lid l s t = admit-IsEntered pid q lid l s refl new in
      record {
        q = q;
        t = t;
        sent = welcome env q pid l t;
        metadata = refl;
        channel = refl;
        result = e;
        entered = entered;
        index = refl;
        welcomed = welcome-IsWelcome env q pid l t walk entered.player (λ x p inside found.
            elim (Bool-cases (pid == x)) [
              | inl same ↦
                  absurd (
                    ground (arith, new, inside, ap (λ i. contains i l.players) (beq→eq pid x same)))
              | inr apart ↦
                  members x p inside
                    (sym (entered.others x (λ e. ground (arith, apart, e, beq_refl pid))) ∙ found)
            ]);
      }

  -- What `JoinLobby` does: it refuses the guest, or seats it in the lobby.
  abbrev pub Joined : Env → IpAddr → Metadata → TokioSender → BlasterEventLoop F → LobbyId → Type 0
  Joined env ip pm sender s lid =
      let r = join_lobby env ip lid pm sender s in
      (s₁ : BlasterEventLoop F) × IsMetered ip (env.now 0) s s₁
      × ((IsHeldBack ip (env.now 0) s × (r ≡ some (s₁, [], err sessions_per_ip_error)))
          ⊎ IsLetIn ip (env.now 0) s
            × (((lookup lid s.lobbies ≡ none) × (r ≡ some (s₁, [], err lobby_not_found)))
                ⊎ ((l : Lobby F) × (lookup lid s.lobbies ≡ some l)
                    × (((l.capacity ≤ length l.players) × (r ≡ some (s₁, [], err lobby_full)))
                        ⊎ ((length l.players < l.capacity)
                            × IsSeated (env.random 0) pm sender lid l s₁.gid_lobbies s₁ r)))))

  module _ (env : Env) (walk : IsWalk env) (ip : IpAddr) (pm : Metadata) (sender : TokioSender)
      (s : BlasterEventLoop F) (v : IsValid s) where
    -- The state once the address is metered.
    unfoldable pub metered : BlasterEventLoop F
    metered = (cap_ip ip (env.now 0) s).0

    pub metered-IsValid : IsValid metered
    unfolding metered
    metered-IsValid =
        subst IsValid (sym (cap_ip-peers ip (env.now 0) s)) (peers_written-IsValid _ s v)

    -- In a well-formed state, for a random id that is no player's, `JoinLobby` returns. A token is
    -- asked for of the address. The guest is refused just when the address is unknown or has no token
    -- left, or there is no such lobby, or the lobby is full, with the reason; then nothing is sent, and
    -- nothing else changes. Otherwise it is a player of the lobby, with its metadata and channel, the
    -- lobby has exactly one more player, and all other players, lobbies and addresses, the index and
    -- the configuration are as they were; the newcomer is told of the lobby's state, every member and
    -- the newcomer are told of each other, the master comes last, and nobody outside the lobby hears
    -- of it. The walk over a hash set is supposed to meet the elements.
    pub join_lobby-IsSeated :
        (lid : LobbyId) → lookup (env.random 0) s.players ≡ none → Joined env ip pm sender s lid
    unfolding join_lobby is_full metered
    join_lobby-IsSeated lid fresh =
        let s₁ = metered in
        let pid = env.random 0 in
        let (charged, verdict) = cap_ip-IsMetered ip (env.now 0) s in
        (
          s₁,
          charged,
          elim verdict [
            | inl (held, spent) ↦ inl (held, rw (spent, join_lobby) refl)
            | inr (let_in, paid) ↦ inr (
              let_in,
              elim (Option-cases (lookup lid s₁.lobbies)) [
                | inl missing ↦ inl (
                  ap (lookup lid) (sym charged.lobbies) ∙ missing,
                  rw (paid, join_lobby) (rw missing refl),
                )
                | inr (l, there) ↦ inr (
                  l,
                  ap (lookup lid) (sym charged.lobbies) ∙ there,
                  elim (Bool-cases (is_full l)) [
                    | inl full ↦
                        inl (ground (arith, full), rw (paid, join_lobby) (rw there (rw full refl)))
                    | inr room ↦ inr (
                      ground (arith, room),
                      insert_player-IsSeated env sender pid lid pm (env.now 1) (env.now 2) l s₁ _
                          walk (newcomer_outside pid lid l s₁ metered-IsValid fresh₁ there)
                          (λ x p inside found.
                            let (p', found', at) = metered-IsValid.guest lid l x there inside in
                            ap (λ (r : Player F). r.lid) (some_inj (sym found ∙ found')) ∙ at)
                          (rw (paid, join_lobby)
                            (rw there (
                              rw room (
                                rw
                                  (insert_player_lem env sender pid lid pm (env.now 1) (env.now 2) l
                                    s₁ there)
                                  refl)))),
                    )
                  ],
                )
              ],
            )
          ],
        )
      where
        fresh₁ : lookup (env.random 0) metered.players ≡ none
        fresh₁ =
            subst (λ (t : BlasterEventLoop F). lookup (env.random 0) t.players ≡ none)
              (sym (cap_ip-peers ip (env.now 0) s)) fresh

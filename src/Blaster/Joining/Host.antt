-- ===== src/Blaster/Joining/Host.antt =====
-- What `HostLobby` of server/src/blaster/eventloop.rs does, on every branch.
use nut_blast.Base.{
  ℕ, Dict, lookup, if◌then◌else◌, ◌==◌, ap, ◌≡◌, ◌⊎◌, refl, sym, ◌∙◌, Bool, true, Option, some,
  List, [], contains, nat_eq, string_eq, Option-cases, Result, err, inl, inr, beq_false_of_ne,
  lookup-insert_self, lookup-insert_ne,
}
use nut_blast.Float.{Float}
use nut_blast.Protocol.Basic.{BasicId, GameId, LobbyId, lobby_id_eq}
use nut_blast.Protocol.Metadata.{Metadata}
use nut_blast.Protocol.Payloads.{Kick}
use nut_blast.Blaster.{IpAddr, TokioSender, Instant, Lobby, Env, Sent}
use nut_blast.Blaster.EventLoop.State.{BlasterEventLoop, sessions_per_ip_error, cap_ip, put_lobby}
use nut_blast.Blaster.EventLoop.Rooms.{
  lobby_id, indexed, or_empty, host_lobby, host_refusal, new_lobby, add_to_index, listed_count,
}
use nut_blast.Blaster.Invariant.{IsWalk, IsValid}
use nut_blast.Blaster.Moves.Rooms.{insert_player_lem, cap_ip-peers}
use nut_blast.Blaster.Metering.{IsMetered, IsHeldBack, IsLetIn, cap_ip-IsMetered}
use nut_blast.Blaster.Invariant.Arrivals.{contains-indexed_add}
use nut_blast.Blaster.Joining.Limits.{
  IsWithinLimits, IsOverLimit, refused-IsOverLimit, accepted-IsWithinLimits,
}
use nut_blast.Blaster.Joining.Laws.{IsSeated, insert_player-IsSeated}

module _ {F : Float} where
  -- A lobby that the host `pid` of the address opens, before anyone is in it.
  pub record IsOpened (ip : IpAddr) (m : Metadata) (max : ℕ) (public : Bool) (pid : BasicId)
      (l : Lobby F) : Type 0 where
    pub initiator : l.initiator ≡ ip
    pub players : l.players ≡ []
    pub master : l.master ≡ pid
    pub metadata : l.metadata ≡ m
    pub capacity : l.capacity ≡ max
    pub listed : l.listed ≡ public

  new_lobby-IsOpened :
      (env : Env) (ip : IpAddr) (m : Metadata) (max : ℕ) (public : Bool) (pid : BasicId)
      → IsOpened ip m max public pid (new_lobby env ip m max public pid)
  unfolding new_lobby
  new_lobby-IsOpened env ip m max public pid = record {
    initiator = refl;
    players = refl;
    master = refl;
    metadata = refl;
    capacity = refl;
    listed = refl;
  }

  -- The same, seen from the state before the lobby was opened.
  opened-IsSeated :
      (pid : BasicId) (m : Metadata) (sender : TokioSender) (lid : LobbyId) (l : Lobby F)
      (s : BlasterEventLoop F) (r : Option (BlasterEventLoop F × List Sent × Result Kick BasicId))
      → (let s' = add_to_index lid (put_lobby lid l s) in
          IsSeated pid m sender lid l s'.gid_lobbies s' r)
      → IsSeated pid m sender lid l (add_to_index lid (put_lobby lid l s)).gid_lobbies s r
  unfolding add_to_index
  opened-IsSeated pid m sender lid l s r h = record {
    q = h.q;
    t = h.t;
    sent = h.sent;
    metadata = h.metadata;
    channel = h.channel;
    result = h.result;
    entered = record {
      peers = h.entered.peers;
      config = h.entered.config;
      player = h.entered.player;
      home = h.entered.home;
      others = h.entered.others;
      elsewhere = λ j apart.
          h.entered.elsewhere j apart
          ∙ lookup-insert_ne lid j l s.lobbies (beq_false_of_ne lid j (λ e. apart (sym e)));
      room = h.entered.room;
    };
    index = h.index;
    welcomed = h.welcomed;
  }

  -- A new lobby is refused or not whether the address is metered before.
  host_refusal-cap_ip :
      (ip : IpAddr) (gid : GameId) (public : Bool) (now : Instant) (s : BlasterEventLoop F)
      → host_refusal ip gid public (cap_ip ip now s).0 ≡ host_refusal ip gid public s
  unfolding host_refusal listed_count indexed
  host_refusal-cap_ip ip gid public now s = ap (host_refusal ip gid public) (cap_ip-peers ip now s)

  -- What `HostLobby` does: it refuses the host, or opens a lobby and seats the host in it.
  abbrev pub Hosted :
      Env
      → IpAddr
      → GameId
      → Metadata
      → ℕ
      → Bool
      → Metadata
      → TokioSender
      → BlasterEventLoop F
      → Type 0
  Hosted env ip gid m max public pm sender s =
      let r = host_lobby env ip gid m max public pm sender s in
      let lid = lobby_id gid (env.random 0) in
      let pid = env.random 1 in
      (s₁ : BlasterEventLoop F) × IsMetered ip (env.now 0) s s₁
      × ((IsHeldBack ip (env.now 0) s × (r ≡ some (s₁, [], err sessions_per_ip_error)))
          ⊎ IsLetIn ip (env.now 0) s
            × (((reason : Kick) × IsOverLimit ip gid public s reason
                  × (r ≡ some (s₁, [], err reason)))
                ⊎ (IsWithinLimits ip gid public s
                    × (l : Lobby F) × IsOpened ip m max public pid l
                    × (index : Dict GameId (List BasicId)) × ((g : GameId) (j : BasicId)
                        → contains j (or_empty (lookup g index))
                          ≡ (if lid == lobby_id g j then true else contains j (indexed g s)))
                    × IsSeated pid pm sender lid l index s₁ r)))

  -- In a well-formed state `HostLobby` returns. A token is asked for of the address. The host is
  -- refused just when the address is unknown or has no token left, or has opened four lobbies, or one
  -- that is listed while the new one is to be listed too, or when the new one is to be listed and 32 of
  -- the game are; then the reason says which, nothing is sent, and nothing else changes. Otherwise the
  -- host is the one player, and the master, of a lobby as it asked for, which is new in the index; it
  -- is told of that, and all other players, lobbies and addresses, the rest of the index, and the
  -- configuration are as they were. The random ids are not tested: where one is in use, the lobby or
  -- the player of that id is replaced. The walk over a hash set is supposed to meet the elements.
  pub host_lobby-IsSeated :
      (env : Env) (ip : IpAddr) (gid : GameId) (m : Metadata) (max : ℕ) (public : Bool)
      (pm : Metadata) (sender : TokioSender) (s : BlasterEventLoop F)
      → IsWalk env
      → IsValid s
      → Hosted env ip gid m max public pm sender s
  unfolding host_lobby contains new_lobby add_to_index indexed
  host_lobby-IsSeated env ip gid m max public pm sender s walk v =
      let s₁ = (cap_ip ip (env.now 0) s).0 in
      let lid = lobby_id gid (env.random 0) in
      let pid = env.random 1 in
      let l = new_lobby env ip m max public pid in
      let s₂ = add_to_index lid (put_lobby lid l s₁) in
      let (charged, verdict) = cap_ip-IsMetered ip (env.now 0) s in
      let same : host_refusal ip gid public s₁ ≡ host_refusal ip gid public s =
        host_refusal-cap_ip ip gid public (env.now 0) s in
      (
        s₁,
        charged,
        elim verdict [
          | inl (held, spent) ↦ inl (held, rw (spent, host_lobby) refl)
          | inr (let_in, paid) ↦ inr (
            let_in,
            elim (Option-cases (host_refusal ip gid public s₁)) [
              | inr (reason, over) ↦ inl (
                reason,
                refused-IsOverLimit ip gid public s reason v (sym same ∙ over),
                rw (paid, host_lobby) (rw over refl),
              )
              | inl accepted ↦ inr (
                accepted-IsWithinLimits ip gid public s v (sym same ∙ accepted),
                l,
                new_lobby-IsOpened env ip m max public pid,
                s₂.gid_lobbies,
                (λ g j.
                    contains-indexed_add lid g j s₁
                    ∙ ap
                        (λ d.
                          if lid == lobby_id g j then true else contains j (or_empty (lookup g d)))
                        charged.gid_lobbies),
                opened-IsSeated pid pm sender lid l s₁ _ (
                    insert_player-IsSeated env sender pid lid pm (env.now 4) (env.now 5) l s₂ _ walk
                      refl (λ x p inside found. absurd (cc (inside)))
                      (rw (paid, host_lobby)
                        (rw accepted (
                          rw
                            (insert_player_lem env sender pid lid pm (env.now 4) (env.now 5) l s₂
                              (lookup-insert_self lid l s₁.lobbies))
                            refl)))),
              )
            ],
          )
        ],
      )

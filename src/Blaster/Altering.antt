-- ===== src/Blaster/Altering.antt =====
-- What a master does to its lobby, and who is told; `SetCapacity`, `SetListed` and `SetMaster` of
-- server/src/blaster/eventloop.rs.
use mathlib.Core.List.{Memᴰ}
use mathlib.Core.Option
use nut_blast.Base.{
  ℕ, ◌≡◌, ◌≢◌, ◌⊎◌, refl, sym, ◌∙◌, ap, subst, Bool, true, some, List, [], ◌∷◌, lookup, insert,
  nat_eq, string_eq, Result-cases, ok, err, inl, inr, beq_refl, beq_false_of_ne, some_inj, arith,
  contains, lookup-insert_self, lookup-insert_ne, Mem-filter_map,
}
use nut_blast.Float.{Float}
use nut_blast.Tokens
use nut_blast.Protocol.Basic.{BasicId, LobbyId, lobby_id_eq}
use nut_blast.Protocol.Payloads.{Kick, ServerMessage}
use nut_blast.Blaster.{Lobby, Player, Env, Sent, send, try_take_from_budget, boot}
use nut_blast.Blaster.EventLoop.State.{BlasterEventLoop, put_lobby, send_to_lobby, mastered}
use nut_blast.Blaster.EventLoop.Master.{alter, set_capacity, set_listed, set_master, is_in}
use nut_blast.Blaster.Invariant.{IsValid, IsWalk}

module _ {F : Float} where
  -- Every player of the lobby is told.
  abbrev pub AllTold : LobbyId → ServerMessage → BlasterEventLoop F → List Sent → Type 0
  AllTold lid msg s sent =
      (x : BasicId) (q : Player F)
      → lookup x s.players ≡ some q
      → q.lid ≡ lid
      → Memᴰ (send q msg) sent

  pub send_to_lobby-AllTold :
      (env : Env) (lid : LobbyId) (msg : ServerMessage) (l : Lobby F) (s : BlasterEventLoop F)
      → IsWalk env
      → lookup lid s.lobbies ≡ some l
      → ((x : BasicId) (q : Player F)
          → lookup x s.players ≡ some q
          → q.lid ≡ lid
          → contains x l.players ≡ true)
      → AllTold lid msg s (send_to_lobby env lid msg s)
  unfolding send_to_lobby
  send_to_lobby-AllTold env lid msg l s walk there inside x q found home =
      rw (send_to_lobby, there)
        (Mem-filter_map (λ id. Option.map (λ p. send p msg) (lookup id s.players))
          (env.iter l.players) x (send q msg) (walk.meets x l.players ∙ inside x q found home)
          (rw found refl))

  -- The lobby `l` of the master `p` is changed, with a token from its budget, and all its players are
  -- told; or the budget has none, and the master is dismissed. Nothing else changes.
  pub record IsAltered (env : Env) (p : Player F) (l : Lobby F) (change : Lobby F → Lobby F)
      (msg : ServerMessage) (s : BlasterEventLoop F) (r : BlasterEventLoop F × List Sent)
      : Type 0 where
    pub players : r.0.players ≡ s.players
    pub elsewhere : (j : LobbyId) → j ≢ p.lid → lookup j r.0.lobbies ≡ lookup j s.lobbies
    pub outcome :
        let (bucket, taken) = Tokens.try_take 1 (env.now 0) l.alterations_budget in
        ((taken ≡ ok tt)
          × (lookup p.lid r.0.lobbies ≡ some (change (record l { alterations_budget = bucket })))
          × AllTold p.lid msg s r.1)
        ⊎ ((reason : Kick) × (taken ≡ err reason)
            × (lookup p.lid r.0.lobbies ≡ some (record l { alterations_budget = bucket }))
            × (r.1 ≡ send p (ServerMessage.disconnected reason) ∷ []))

  module _ (env : Env) (walk : IsWalk env) (p : Player F) (l : Lobby F) (s : BlasterEventLoop F)
      (v : IsValid s) (there : lookup p.lid s.lobbies ≡ some l) where
    inside :
        (x : BasicId) (q : Player F)
        → lookup x s.players ≡ some q
        → q.lid ≡ p.lid
        → contains x l.players ≡ true
    inside x q found home =
        let (l', at, member) = v.home x q found in
        let same : l' ≡ l = some_inj (sym at ∙ ap (λ i. lookup i s.lobbies) home ∙ there) in
        subst (λ (r : Lobby F). contains x r.players ≡ true) same member

    alter-IsAltered :
        (change : Lobby F → Lobby F) (msg : ServerMessage)
        → ((k : Lobby F) → (change k).players ≡ k.players)
        → IsAltered env p l change msg s (alter env p l change msg s)
    unfolding alter try_take_from_budget boot
    alter-IsAltered change msg keeps =
        let bucket = (Tokens.try_take 1 (env.now 0) l.alterations_budget).0 in
        let l' : Lobby F = record l { alterations_budget = bucket } in
        let apart : (k : Lobby F) (j : LobbyId)
            → j ≢ p.lid
            → lookup j (insert p.lid k s.lobbies) ≡ lookup j s.lobbies =
          λ k j ne.
            lookup-insert_ne p.lid j k s.lobbies (beq_false_of_ne p.lid j (λ e. ne (sym e))) in
        elim (Result-cases (Tokens.try_take 1 (env.now 0) l.alterations_budget).1) [
          | inl (_, paid) ↦
              rw (alter, try_take_from_budget, paid)
                (record {
                  players = refl;
                  elsewhere = apart (change l');
                  outcome = inl (
                    paid,
                    lookup-insert_self p.lid (change l') s.lobbies,
                    send_to_lobby-AllTold env p.lid msg (change l') (put_lobby p.lid (change l') s)
                        walk (lookup-insert_self p.lid (change l') s.lobbies)
                        (λ x q found home.
                          subst (λ xs. contains x xs ≡ true) (sym (keeps l'))
                            (inside x q found home)),
                  );
                })
          | inr (reason, spent) ↦
              rw (alter, try_take_from_budget, spent)
                (record {
                  players = refl;
                  elsewhere = apart l';
                  outcome = inr (reason, spent, lookup-insert_self p.lid l' s.lobbies, refl);
                })
        ]

    module _ (pid : BasicId) (found : lookup pid s.players ≡ some p)
        (masters : l.master ≡ pid) where
      mastered_lem : mastered pid s ≡ some (p, l)
      unfolding mastered
      mastered_lem = rw (mastered, found) (rw there (ground (arith, masters, beq_refl pid)))

      -- In a well-formed state, where the master of a lobby sets its capacity, lists it or not, or hands
      -- it to another player of it: the budget of the lobby has a token, the lobby is changed in that
      -- and pays the token, and all its players are told; or it has none, and the master is dismissed
      -- with the reason. No player and no other lobby changes. The walk over a hash set is supposed to
      -- meet the elements.
      pub master-IsAltered :
          (capacity : ℕ) (listed : Bool) (heir : BasicId) (q : Player F)
          → lookup heir s.players ≡ some q
          → q.lid ≡ p.lid
          → heir ≢ pid
          → IsAltered env p l
              (λ k. record k { capacity = capacity })
              (ServerMessage.set_capacity capacity)
              s
              (set_capacity env pid capacity s)
            × IsAltered env p l
                (λ k. record k { listed = listed })
                (ServerMessage.set_listed listed)
                s
                (set_listed env pid listed s)
            × IsAltered env p l
                (λ k. record k { master = heir })
                (ServerMessage.set_master heir)
                s
                (set_master env pid heir s)
      unfolding set_capacity set_listed set_master is_in
      master-IsAltered capacity listed heir q there' home other = (
        rw (set_capacity, mastered_lem)
            (alter-IsAltered (λ k. record k { capacity = capacity })
              (ServerMessage.set_capacity capacity) (λ k. refl)),
        rw (set_listed, mastered_lem)
            (alter-IsAltered (λ k. record k { listed = listed }) (ServerMessage.set_listed listed)
              (λ k. refl)),
        rw (set_master, beq_false_of_ne heir pid other)
            (rw mastered_lem (
              rw (is_in, there')
                (rw (home, beq_refl p.lid)
                  (alter-IsAltered (λ k. record k { master = heir }) (ServerMessage.set_master heir)
                    (λ k. refl))))),
      )

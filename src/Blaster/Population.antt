-- ===== src/Blaster/Population.antt =====
-- Who is a player after an operation of server/src/blaster/eventloop.rs.
use nut_blast.Base.{
  ℕ, ◌≡◌, ◌⊎◌, refl, sym, ◌∙◌, ap, Bool, true, false, String, Option, none, some, ok, arith, ◌==◌,
  nat_eq, string_eq, lookup, erase, lookup-insert_inv, lookup-erase_inv, is_some, Bool-cases,
  Option-cases, Result-cases, inl, inr, beq_false_of_ne, none≢some, contains_key, len, ◌+◌,
}
use nut_blast.Float.{Float}
use nut_blast.Protocol.Basic.{BasicId, lobby_id_eq}
use nut_blast.Protocol.Payloads.{Kick}
use nut_blast.Protocol.Metadata.{can_add}
use nut_blast.Tokens
use nut_blast.Blaster.{BlasterOperation, Reply, Env, Player}
use nut_blast.Blaster.EventLoop.{Outcome, recv, answer}
use nut_blast.Blaster.EventLoop.State.{BlasterEventLoop, put_player, cap_ip, admit}
use nut_blast.Blaster.EventLoop.Sessions.{introduce_session, close_session, prune}
use nut_blast.Blaster.EventLoop.Master.{
  alter, set_capacity, set_listed, set_master, set_lobby_meta, erase_lobby_meta,
}
use nut_blast.Blaster.EventLoop.Fields.{set_player_meta, erase_player_meta}
use nut_blast.Blaster.EventLoop.Rooms.{remove_player, list_lobbies, add_to_index}
use nut_blast.Blaster.Moves.Rooms.{cap_ip-peers, host_lobby-cases, join_lobby-cases}

-- The operation takes the player away.
abbrev pub is_removal : BasicId → BlasterOperation → Bool
is_removal pid (BlasterOperation.remove_player j reason) = j == pid
is_removal pid op = false

-- The operation makes a player.
abbrev pub is_seating : BlasterOperation → Bool
is_seating (BlasterOperation.host_lobby ip gid m capacity listed pm sender) = true
is_seating (BlasterOperation.join_lobby ip lid pm sender) = true
is_seating op = false

module _ {F : Float} where
  -- Who is a player after the operation was one before, and is not taken away; or it is the player
  -- that the operation makes and answers with.
  abbrev pub Peopled : BlasterOperation → BlasterEventLoop F → Option (Outcome F) → Type 0
  Peopled op s none = ⊥
  Peopled op s (some o) =
      (x : BasicId) (p : Player F)
      → lookup x o.state.players ≡ some p
      → ((is_some (lookup x s.players) ≡ true) × (is_removal x op ≡ false))
        ⊎ ((is_seating op ≡ true) × (o.reply ≡ Reply.joined (ok x)))

  players-introduce_session :
      (ip now : ℕ) (s : BlasterEventLoop F) → (introduce_session ip now s).0.players ≡ s.players
  unfolding introduce_session
  players-introduce_session ip now s = ground arith

  players-close_session :
      (ip now : ℕ) (s : BlasterEventLoop F) → (close_session ip now s).players ≡ s.players
  unfolding close_session
  players-close_session ip now s = ground arith

  module _ (env : Env) (pid : BasicId) (s : BlasterEventLoop F) where
    players-set_capacity : (capacity : ℕ) → (set_capacity env pid capacity s).0.players ≡ s.players
    unfolding set_capacity alter
    players-set_capacity capacity = ground arith

    players-set_listed : (listed : Bool) → (set_listed env pid listed s).0.players ≡ s.players
    unfolding set_listed alter
    players-set_listed listed = ground arith

    players-set_master :
        (new_master : BasicId) → (set_master env pid new_master s).0.players ≡ s.players
    unfolding set_master alter
    players-set_master new_master = ground arith

    players-set_lobby_meta :
        (key value : String) → (set_lobby_meta env pid key value s).0.players ≡ s.players
    unfolding set_lobby_meta
    players-set_lobby_meta key value = ground arith

    players-erase_lobby_meta :
        (key : String) → (erase_lobby_meta env pid key s).0.players ≡ s.players
    unfolding erase_lobby_meta
    players-erase_lobby_meta key = ground arith

    -- A rewritten player was there.
    rewritten :
        (p q : Player F) (x : BasicId) (r : Player F)
        → lookup pid s.players ≡ some p
        → lookup x (put_player pid q s).players ≡ some r
        → is_some (lookup x s.players) ≡ true
    rewritten p q x r there found = elim (lookup-insert_inv pid x q r s.players found) [
      | inl (same, _) ↦ ap is_some (ap (λ i. lookup i s.players) (sym same) ∙ there)
      | inr (_, old) ↦ ap is_some old
    ]

    players-set_player_meta :
        (key value : String) (x : BasicId) (r : Player F)
        → lookup x (set_player_meta env pid key value s).0.players ≡ some r
        → is_some (lookup x s.players) ≡ true
    unfolding set_player_meta
    players-set_player_meta key value x r h = elim (Option-cases (lookup pid s.players)) [
      | inl gone ↦ ap is_some (rw (gone, set_player_meta) at h)
      | inr (p, there) ↦
          let at_p = rw (there, set_player_meta) at h in
          elim (Bool-cases (can_add p.metadata key)) [
            | inr large ↦ ap is_some (rw large at at_p)
            | inl fits ↦
                let charged = rw fits at at_p in
                elim (Result-cases
                  (Tokens.try_take (len key + len value) (env.now 0) p.metadata_budget).1) [
                    | inr (e, short) ↦ rewritten p _ x r there (rw short at charged)
                    | inl (_, paid) ↦ rewritten p _ x r there (rw paid at charged)
                  ]
          ]
    ]

    players-erase_player_meta :
        (key : String) (x : BasicId) (r : Player F)
        → lookup x (erase_player_meta env pid key s).0.players ≡ some r
        → is_some (lookup x s.players) ≡ true
    unfolding erase_player_meta
    players-erase_player_meta key x r h = elim (Option-cases (lookup pid s.players)) [
      | inl gone ↦ ap is_some (rw (gone, erase_player_meta) at h)
      | inr (p, there) ↦
          let at_p = rw (there, erase_player_meta) at h in
          elim (Bool-cases (contains_key key p.metadata)) [
            | inr absent ↦ ap is_some (rw absent at at_p)
            | inl present ↦ rewritten p _ x r there (rw present at at_p)
          ]
    ]

    players-remove_player :
        (reason : Kick) (x : BasicId) (r : Player F)
        → lookup x (remove_player env pid reason s).0.players ≡ some r
        → (is_some (lookup x s.players) ≡ true) × ((pid == x) ≡ false)
    unfolding remove_player
    players-remove_player reason x r h = elim (Option-cases (lookup pid s.players)) [
      | inl gone ↦
          let found = rw (gone, remove_player) at h in
          (
            ap is_some found,
            beq_false_of_ne pid x
                (λ e. none≢some (sym gone ∙ ap (λ i. lookup i s.players) e ∙ found)),
          )
      | inr (p, there) ↦
          let erased : (remove_player env pid reason s).0.players ≡ erase pid s.players =
            ground (arith, there) in
          let (apart, old) = lookup-erase_inv pid x r s.players (ap (lookup x) (sym erased) ∙ h) in
          (ap is_some old, apart)
    ]

  -- A request that pays changes no player.
  paying :
      (env : Env) (ip : ℕ) (s : BlasterEventLoop F) (x : BasicId)
      → lookup x (cap_ip ip (env.now 0) s).0.players ≡ lookup x s.players
  paying env ip s x =
      ap (λ (t : BlasterEventLoop F). lookup x t.players) (cap_ip-peers ip (env.now 0) s)

  pub recv-Peopled :
      (env : Env) (op : BlasterOperation) (s : BlasterEventLoop F) → Peopled op s (recv env op s)
  unfolding recv admit add_to_index list_lobbies prune introduce_session close_session
  recv-Peopled env (BlasterOperation.assemble_pong pid) s = λ x p h. inl (ap is_some h, refl)
  recv-Peopled env (BlasterOperation.set_capacity pid n) s =
      λ x p h. inl (ap is_some (ap (lookup x) (sym (players-set_capacity env pid s n)) ∙ h), refl)
  recv-Peopled env (BlasterOperation.set_listed pid b) s =
      λ x p h. inl (ap is_some (ap (lookup x) (sym (players-set_listed env pid s b)) ∙ h), refl)
  recv-Peopled env (BlasterOperation.set_master pid m) s =
      λ x p h. inl (ap is_some (ap (lookup x) (sym (players-set_master env pid s m)) ∙ h), refl)
  recv-Peopled env (BlasterOperation.set_player_meta pid key value) s =
      λ x p h. inl (players-set_player_meta env pid s key value x p h, refl)
  recv-Peopled env (BlasterOperation.erase_player_meta pid key) s =
      λ x p h. inl (players-erase_player_meta env pid s key x p h, refl)
  recv-Peopled env (BlasterOperation.set_lobby_meta pid key value) s = λ x p h.
      inl (ap is_some (ap (lookup x) (sym (players-set_lobby_meta env pid s key value)) ∙ h), refl)
  recv-Peopled env (BlasterOperation.erase_lobby_meta pid key) s = λ x p h.
      inl (ap is_some (ap (lookup x) (sym (players-erase_lobby_meta env pid s key)) ∙ h), refl)
  recv-Peopled env (BlasterOperation.relay from to msg) s = λ x p h. inl (ap is_some h, refl)
  recv-Peopled env (BlasterOperation.list_lobbies ip gid limit) s =
      λ x p h. inl (ap is_some (sym (paying env ip s x) ∙ h), refl)
  recv-Peopled env (BlasterOperation.host_lobby ip gid m n b pm sender) s =
      host_lobby-cases
        (λ r. Peopled (BlasterOperation.host_lobby ip gid m n b pm sender) s (answer r)) env ip gid
        m n b pm sender s (λ r x p h. inl (ap is_some (sym (paying env ip s x) ∙ h), refl))
        (λ sent allowed x p h. elim (lookup-insert_inv (env.random 1) x _ p _ h) [
          | inl (same, _) ↦ inr (refl, ap (λ i. Reply.joined (ok i)) same)
          | inr (_, old) ↦ inl (ap is_some (sym (paying env ip s x) ∙ old), refl)
        ])
  recv-Peopled env (BlasterOperation.join_lobby ip lid pm sender) s =
      join_lobby-cases (λ r. Peopled (BlasterOperation.join_lobby ip lid pm sender) s (answer r))
        env ip lid pm sender s (λ r x p h. inl (ap is_some (sym (paying env ip s x) ∙ h), refl))
        (λ l sent there room x p h. elim (lookup-insert_inv (env.random 0) x _ p _ h) [
          | inl (same, _) ↦ inr (refl, ap (λ i. Reply.joined (ok i)) same)
          | inr (_, old) ↦ inl (ap is_some (sym (paying env ip s x) ∙ old), refl)
        ])
  recv-Peopled env (BlasterOperation.kick_player kicker kickee) s =
      λ x p h. inl (ap is_some h, refl)
  recv-Peopled env (BlasterOperation.remove_player pid reason) s =
      λ x p h. inl (players-remove_player env pid s reason x p h)
  recv-Peopled env (BlasterOperation.introduce_session ip) s = λ x p h.
      inl (ap is_some (ap (lookup x) (sym (players-introduce_session ip (env.now 0) s)) ∙ h), refl)
  recv-Peopled env BlasterOperation.prune s = λ x p h. inl (ap is_some h, refl)
  recv-Peopled env (BlasterOperation.close_session ip) s = λ x p h.
      inl (ap is_some (ap (lookup x) (sym (players-close_session ip (env.now 0) s)) ∙ h), refl)

-- ===== src/Blaster/Rights/Heard.antt =====
-- What a player's operation sends, operation by operation.
use nut_blast.Base.{
  ℕ, ◌≡◌, ◌⊎◌, refl, sym, ◌∙◌, ap, Bool, String, none, some, List, [], ◌∷◌, arith, ◌==◌, lookup,
  insert, erase, contains_key, lookup-insert_inv, lookup-erase_inv, beq→eq, nat_eq, string_eq,
  Bool-cases, Option-cases, Result-cases, some_inj, inl, inr, len, ◌+◌,
}
use nut_blast.Float.{Float}
use nut_blast.Protocol.Basic.{BasicId, is_null, lobby_id_eq}
use nut_blast.Protocol.Metadata.{can_add}
use nut_blast.Protocol.Payloads.{ServerMessage, Kick}
use nut_blast.Tokens
use nut_blast.Tokens.{TokenBucket}
use nut_blast.Blaster.{Env, Player, Lobby, Sent, send, boot, try_take_from_budget}
use nut_blast.Blaster.EventLoop.State.{BlasterEventLoop, put_lobby, mastered}
use nut_blast.Blaster.EventLoop.Master.{
  alter, set_capacity, set_listed, set_master, is_in, set_lobby_meta, erase_lobby_meta, kick_player,
}
use nut_blast.Blaster.EventLoop.Fields.{set_player_meta, erase_player_meta, relay}
use nut_blast.Blaster.EventLoop.Rooms.{remove_player, leave}
use nut_blast.Blaster.Moves.Single.{mastered_inv, is_in_inv}
use nut_blast.Blaster.Invariant.{IsValid, IsWalk}
use nut_blast.Blaster.Invariant.Writes.{lobby_written-IsValid, player_written-IsValid}
use nut_blast.Blaster.Invariant.Departures.{left-IsValid}
use nut_blast.Blaster.Invariant.Reach.{member_inside}
use nut_blast.Blaster.Rights.Isolation.{GoesTo, AllGoTo, AllGoTo-append, send_to_lobby-AllGoTo}

module _ {F : Float} (env : Env) (walk : IsWalk env) (pid : BasicId) (p : Player F)
    (s : BlasterEventLoop F) (v : IsValid s) (there : lookup pid s.players ≡ some p) where
  -- A message to the player goes to its own lobby.
  own_message : (m : ServerMessage) → GoesTo s.players p.lid (send p m)
  unfolding send
  own_message m = (pid, p, there, refl, refl)

  boots-AllGoTo :
      (b : TokenBucket F) (count now : ℕ)
      → AllGoTo s.players p.lid (try_take_from_budget p b count now).2
  unfolding try_take_from_budget boot
  boots-AllGoTo b count now = elim (Result-cases (Tokens.try_take count now b).1) [
    | inl (_, paid) ↦ rw (paid, try_take_from_budget) tt
    | inr (r, short) ↦
        rw (short, try_take_from_budget) (own_message (ServerMessage.disconnected r), tt)
  ]

  alter-AllGoTo :
      (l : Lobby F) (change : Lobby F → Lobby F) (msg : ServerMessage)
      → ((b : TokenBucket F)
          → IsValid (put_lobby p.lid (change (record l { alterations_budget = b })) s))
      → AllGoTo s.players p.lid (alter env p l change msg s).1
  unfolding alter
  alter-AllGoTo l change msg valid =
      let r = try_take_from_budget p l.alterations_budget 1 (env.now 0) in
      elim (Bool-cases r.0) [
        | inl enough ↦ rw enough (
            send_to_lobby-AllGoTo env p.lid msg
              (put_lobby p.lid (change (record l { alterations_budget = r.1 })) s) walk (valid r.1))
        | inr short ↦ rw short (boots-AllGoTo l.alterations_budget 1 (env.now 0))
      ]

  -- A write to the player's lobby, which keeps its players, mark and master.
  kept-IsValid :
      (l l' : Lobby F)
      → mastered pid s ≡ some (p, l)
      → l'.players ≡ l.players
      → l'.idle_since ≡ l.idle_since
      → l'.master ≡ l.master
      → IsValid (put_lobby p.lid l' s)
  kept-IsValid l l' e players idle master =
      let (_, found, _) = mastered_inv pid s p l e in
      lobby_written-IsValid p.lid l l' s found players idle
        (rw master (v.rooms p.lid l found).master) v

  -- The player is refused, or is the master of its lobby.
  mastered-cases : (mastered pid s ≡ none) ⊎ ((l : Lobby F) × (mastered pid s ≡ some (p, l)))
  mastered-cases = elim (Option-cases (mastered pid s)) [
    | inl refused ↦ inl refused
    | inr ((q, l), e) ↦
        let (found, _, _) = mastered_inv pid s q l e in
        let same : q ≡ p = some_inj (sym found ∙ there) in
        inr (l, e ∙ ap (λ (r : Player F). some (r, l)) same)
  ]

  pub set_capacity-AllGoTo :
      (capacity : ℕ) → AllGoTo s.players p.lid (set_capacity env pid capacity s).1
  unfolding set_capacity
  set_capacity-AllGoTo capacity = elim mastered-cases [
    | inl refused ↦ rw (refused, set_capacity) tt
    | inr (l, e) ↦
        rw (e, set_capacity) (alter-AllGoTo l _ _ (λ b. kept-IsValid l _ e refl refl refl))
  ]

  pub set_listed-AllGoTo : (listed : Bool) → AllGoTo s.players p.lid (set_listed env pid listed s).1
  unfolding set_listed
  set_listed-AllGoTo listed = elim mastered-cases [
    | inl refused ↦ rw (refused, set_listed) tt
    | inr (l, e) ↦ rw (e, set_listed) (alter-AllGoTo l _ _ (λ b. kept-IsValid l _ e refl refl refl))
  ]

  pub set_master-AllGoTo :
      (new_master : BasicId) → AllGoTo s.players p.lid (set_master env pid new_master s).1
  unfolding set_master
  set_master-AllGoTo new_master = elim (Bool-cases (new_master == pid)) [
    | inl own ↦ rw own tt
    | inr other ↦ rw other (elim mastered-cases [
      | inl refused ↦ rw (refused, set_master) tt
      | inr (l, e) ↦
          rw (e, set_master)
            (elim (Bool-cases (is_in new_master p.lid s)) [
              | inr outside ↦ rw outside tt
              | inl inside ↦
                  let (_, found, _) = mastered_inv pid s p l e in
                  let (q, there', at) = is_in_inv new_master p.lid s inside in
                  rw inside (
                    alter-AllGoTo l _ _ (λ b.
                      lobby_written-IsValid p.lid l _ s found refl refl
                        (member_inside p.lid l new_master q s v found there' at) v))
            ])
    ])
  ]

  pub set_lobby_meta-AllGoTo :
      (key value : String) → AllGoTo s.players p.lid (set_lobby_meta env pid key value s).1
  unfolding set_lobby_meta
  set_lobby_meta-AllGoTo key value = elim mastered-cases [
    | inl refused ↦ rw (refused, set_lobby_meta) tt
    | inr (l, e) ↦
        rw (e, set_lobby_meta)
          (elim (Bool-cases (can_add l.metadata key)) [
            | inr large ↦ rw large tt
            | inl fits ↦
                let r =
                  try_take_from_budget p l.metadata_budget (len key + len value) (env.now 0) in
                rw fits (elim (Bool-cases r.0) [
                  | inl enough ↦
                      rw enough (
                        send_to_lobby-AllGoTo env p.lid _ _ walk
                          (kept-IsValid l _ e refl refl refl))
                  | inr short ↦
                      rw short (boots-AllGoTo l.metadata_budget (len key + len value) (env.now 0))
                ])
          ])
  ]

  pub erase_lobby_meta-AllGoTo :
      (key : String) → AllGoTo s.players p.lid (erase_lobby_meta env pid key s).1
  unfolding erase_lobby_meta
  erase_lobby_meta-AllGoTo key = elim mastered-cases [
    | inl refused ↦ rw (refused, erase_lobby_meta) tt
    | inr (l, e) ↦
        rw (e, erase_lobby_meta)
          (elim (Bool-cases (contains_key key l.metadata)) [
            | inr gone ↦ rw gone tt
            | inl present ↦
                rw present
                  (send_to_lobby-AllGoTo env p.lid _ _ walk (kept-IsValid l _ e refl refl refl))
          ])
  ]

  pub kick_player-AllGoTo : (kickee : BasicId) → AllGoTo s.players p.lid (kick_player pid kickee s)
  unfolding kick_player send
  kick_player-AllGoTo kickee = elim mastered-cases [
    | inl refused ↦ rw (refused, kick_player) tt
    | inr (l, e) ↦
        rw (e, kick_player)
          (elim (Option-cases (lookup kickee s.players)) [
            | inl gone ↦ rw gone tt
            | inr (q, found) ↦ rw found (elim (Bool-cases (q.lid == p.lid)) [
              | inr elsewhere ↦ rw elsewhere tt
              | inl here ↦ rw here ((kickee, q, found, beq→eq q.lid p.lid here, refl), tt)
            ])
          ])
  ]

  pub relay-AllGoTo :
      (to : BasicId) (msg : ServerMessage) → AllGoTo s.players p.lid (relay pid to msg s)
  unfolding relay send
  relay-AllGoTo to msg =
      rw (there, relay)
        (elim (Option-cases (lookup to s.players)) [
          | inl gone ↦ rw gone tt
          | inr (q, found) ↦ rw found (elim (Bool-cases (p.lid == q.lid)) [
            | inr elsewhere ↦ rw elsewhere tt
            | inl here ↦ rw here ((to, q, found, sym (beq→eq p.lid q.lid here), refl), tt)
          ])
        ])

  -- What is heard by players after the player's own entry was rewritten, in its place and with its
  -- channel, goes to the same channels.
  AllGoTo-insert :
      (p' : Player F) (ms : List Sent)
      → p'.lid ≡ p.lid
      → p'.sender ≡ p.sender
      → AllGoTo (insert pid p' s.players) p.lid ms
      → AllGoTo s.players p.lid ms
  AllGoTo-insert p' [] lid sender h = tt
  AllGoTo-insert p' (m ∷ ms) lid sender h =
      let rest = AllGoTo-insert p' ms lid sender h.1 in
      let (x, q, found, at, to) = h.0 in
      elim (lookup-insert_inv pid x p' q s.players found) [
        | inl (_, same) ↦
            ((pid, p, there, refl, to ∙ ap (λ (r : Player F). r.sender) (sym same) ∙ sender), rest)
        | inr (_, old) ↦ ((x, q, old, at, to), rest)
      ]

  AllGoTo-erase :
      (ms : List Sent) → AllGoTo (erase pid s.players) p.lid ms → AllGoTo s.players p.lid ms
  AllGoTo-erase [] h = tt
  AllGoTo-erase (m ∷ ms) h =
      let (x, q, found, at, to) = h.0 in
      ((x, q, (lookup-erase_inv pid x q s.players found).1, at, to), AllGoTo-erase ms h.1)

  pub set_player_meta-AllGoTo :
      (key value : String) → AllGoTo s.players p.lid (set_player_meta env pid key value s).1
  unfolding set_player_meta boot send
  set_player_meta-AllGoTo key value =
      rw (there, set_player_meta)
        (elim (Bool-cases (can_add p.metadata key)) [
          | inr large ↦ rw large tt
          | inl fits ↦
              rw fits
                (elim (Result-cases
                  (Tokens.try_take (len key + len value) (env.now 0) p.metadata_budget).1) [
                    | inr (r, short) ↦ rw short ((pid, p, there, refl, refl), tt)
                    | inl (_, paid) ↦ rw paid (
                        AllGoTo-insert _ _ refl refl (
                          send_to_lobby-AllGoTo env p.lid _ _ walk
                            (player_written-IsValid pid p _ s there refl v)))
                  ])
        ])

  pub erase_player_meta-AllGoTo :
      (key : String) → AllGoTo s.players p.lid (erase_player_meta env pid key s).1
  unfolding erase_player_meta
  erase_player_meta-AllGoTo key =
      rw (there, erase_player_meta)
        (elim (Bool-cases (contains_key key p.metadata)) [
          | inr absent ↦ rw absent tt
          | inl present ↦ rw present (
              AllGoTo-insert _ _ refl refl (
                send_to_lobby-AllGoTo env p.lid _ _ walk
                  (player_written-IsValid pid p _ s there refl v)))
        ])

  pub remove_player-AllGoTo :
      (reason : Kick) → AllGoTo s.players p.lid (remove_player env pid reason s).1
  unfolding remove_player
  remove_player-AllGoTo reason =
      let bye = own_message (ServerMessage.disconnected reason) in
      rw (there, remove_player)
        (elim (Option-cases (lookup p.lid s.lobbies)) [
          | inl missing ↦ rw missing (bye, tt)
          | inr (l, found) ↦ rw found (elim (Bool-cases (is_null (leave env pid l).master)) [
            | inl nulled ↦ rw nulled (bye, tt)
            | inr named ↦
                let valid = left-IsValid env walk pid p l s there found (ground arith) v in
                rw named (
                  bye,
                  AllGoTo-erase _ (
                      AllGoTo-append _ p.lid _ _
                        (send_to_lobby-AllGoTo env p.lid (ServerMessage.left pid reason) _ walk
                          valid)
                        (send_to_lobby-AllGoTo env p.lid (ServerMessage.set_master _) _ walk
                          valid)),
                )
          ])
        ])

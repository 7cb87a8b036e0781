-- ===== src/Blaster/Moves/Single.antt =====
-- The operations of masters and of single players as moves.
use mathlib.Core.Bool.{false≢true}
use nut_blast.Base.{
  ℕ, ◌≤◌, ◌≡◌, refl, Bool, true, String, some, inl, inr, arith, ◌==◌, lookup, insert, erase,
  length-insert_le, length-insert_old, length-erase_le, contains_key, Bool-cases, Option-cases,
  beq→eq, nat_eq, string_eq, Result-cases, len, ◌+◌,
}
use nut_blast.Float.{Float}
use nut_blast.Protocol.Basic.{BasicId, LobbyId, lobby_id_eq}
use nut_blast.Protocol.Metadata.{Metadata, can_add}
use nut_blast.Protocol.Payloads.{ServerMessage}
use nut_blast.Tokens
use nut_blast.Tokens.{TokenBucket}
use nut_blast.Blaster.{Lobby, Player, Env, try_take_from_budget, IpAddr, Instant}
use nut_blast.Blaster.EventLoop.State.{BlasterEventLoop, put_lobby, mastered, cap_ip}
use nut_blast.Blaster.EventLoop.Master.{
  alter, set_capacity, set_listed, is_in, set_master, set_lobby_meta, erase_lobby_meta,
}
use nut_blast.Blaster.EventLoop.Fields.{set_player_meta, erase_player_meta}
use nut_blast.Blaster.Moves.{
  StaysSmall, SameRoom, Moves, peers_written, lobby_written, crowned, player_written, done, more,
}

-- A field that may be added leaves the metadata within its size.
insert-StaysSmall :
    (key value : String) (m : Metadata) → can_add m key ≡ true → StaysSmall m (insert key value m)
unfolding can_add contains_key
insert-StaysSmall key value m h small = elim (Option-cases (lookup key m)) [
  | inl new ↦ ground (arith, length-insert_le key value m)
  | inr (old, there) ↦ rw (length-insert_old key value old m there) small
]

erase-StaysSmall : (key : String) (m : Metadata) → StaysSmall m (erase key m)
erase-StaysSmall key m small = omega (arith, length-erase_le key m)

module _ {F : Float} where
  -- What `mastered` finds.
  pub mastered_inv :
      (pid : BasicId) (s : BlasterEventLoop F) (p : Player F) (l : Lobby F)
      → mastered pid s ≡ some (p, l)
      → (lookup pid s.players ≡ some p) × (lookup p.lid s.lobbies ≡ some l) × (l.master ≡ pid)
  unfolding mastered
  mastered_inv pid s p l h = ground (arith)

  pub cap_ip-Moves :
      {env : Env} {top : ℕ} (ip : IpAddr) (now : Instant) (s : BlasterEventLoop F)
      → Moves env top s (cap_ip ip now s).0
  unfolding cap_ip
  cap_ip-Moves ip now s = elim (Option-cases (lookup ip s.peers)) [
    | inl gone ↦ rw (gone, cap_ip) done
    | inr (peer, there) ↦ rw (there, cap_ip) (more done (peers_written _ refl))
  ]

  -- `alter` pays, and then changes the lobby or does not.
  alter-cases {ℓ} :
      (P : BlasterEventLoop F → Type ℓ) (env : Env) (player : Player F) (lobby : Lobby F)
      (change : Lobby F → Lobby F) (msg : ServerMessage) (s : BlasterEventLoop F)
      → ((b : TokenBucket F) → P (put_lobby player.lid (record lobby { alterations_budget = b }) s))
      → ((b : TokenBucket F)
          → P (put_lobby player.lid (change (record lobby { alterations_budget = b })) s))
      → P (alter env player lobby change msg s).0
  unfolding alter
  alter-cases P env player lobby change msg s unpaid paid =
      let r = try_take_from_budget player lobby.alterations_budget 1 (env.now 0) in
      elim (Bool-cases r.0) [
        | inl enough ↦ rw enough (paid r.1)
        | inr short ↦ rw short (unpaid r.1)
      ]

  budget_spent :
      (top : ℕ) (l : Lobby F) (b : TokenBucket F)
      → SameRoom top l (record l { alterations_budget = b })
  budget_spent top l b = record {
    players = refl;
    idle_since = refl;
    initiator = refl;
    capacity = λ h. h;
    metadata = λ h. h;
  }

  -- An operation that alters the lobby of a master, or does nothing.
  altered-Moves :
      {env : Env} {top : ℕ} (pid : BasicId) (p : Player F) (l : Lobby F)
      (change : Lobby F → Lobby F) (msg : ServerMessage) (s : BlasterEventLoop F)
      → mastered pid s ≡ some (p, l)
      → ((b : TokenBucket F) → SameRoom top l (change (record l { alterations_budget = b })))
      → ((b : TokenBucket F) → (change (record l { alterations_budget = b })).master ≡ l.master)
      → Moves env top s (alter env p l change msg s).0
  altered-Moves {env} {top} pid p l change msg s e same master =
      let (_, found, _) = mastered_inv pid s p l e in
      alter-cases (Moves env top s) env p l change msg s
        (λ b. more done (lobby_written p.lid l _ found (budget_spent top l b) refl refl))
        (λ b. more done (lobby_written p.lid l _ found (same b) (master b) refl))

  pub set_capacity-Moves :
      {env : Env} {top : ℕ} (pid : BasicId) (capacity : ℕ) (s : BlasterEventLoop F)
      → capacity ≤ top
      → Moves env top s (set_capacity env pid capacity s).0
  unfolding set_capacity
  set_capacity-Moves pid capacity s h = elim (Option-cases (mastered pid s)) [
    | inl refused ↦ rw (refused, set_capacity) done
    | inr ((p, l), e) ↦
        rw (e, set_capacity)
          (altered-Moves pid p l _ _ s e
            (λ b. record {
              players = refl;
              idle_since = refl;
              initiator = refl;
              capacity = λ _. h;
              metadata = λ small. small;
            })
            (λ b. refl))
  ]

  pub set_listed-Moves :
      {env : Env} {top : ℕ} (pid : BasicId) (listed : Bool) (s : BlasterEventLoop F)
      → Moves env top s (set_listed env pid listed s).0
  unfolding set_listed
  set_listed-Moves {env} {top} pid listed s = elim (Option-cases (mastered pid s)) [
    | inl refused ↦ rw (refused, set_listed) done
    | inr ((p, l), e) ↦
        rw (e, set_listed)
          (altered-Moves pid p l _ _ s e
            (λ b. record {
              players = refl;
              idle_since = refl;
              initiator = refl;
              capacity = λ c. c;
              metadata = λ small. small;
            })
            (λ b. refl))
  ]

  pub is_in_inv :
      (pid : BasicId) (lid : LobbyId) (s : BlasterEventLoop F)
      → is_in pid lid s ≡ true
      → (p : Player F) × (lookup pid s.players ≡ some p) × (p.lid ≡ lid)
  unfolding is_in
  is_in_inv pid lid s h = elim (Option-cases (lookup pid s.players)) [
    | inl gone ↦ absurd (false≢true (rw (gone, is_in) at h))
    | inr (p, there) ↦ (p, there, beq→eq p.lid lid (rw (there, is_in) at h))
  ]

  pub set_master-Moves :
      {env : Env} {top : ℕ} (pid new_master : BasicId) (s : BlasterEventLoop F)
      → Moves env top s (set_master env pid new_master s).0
  unfolding set_master
  set_master-Moves {env} {top} pid new_master s = elim (Bool-cases (new_master == pid)) [
    | inl own ↦ rw own done
    | inr other ↦ rw other (elim (Option-cases (mastered pid s)) [
      | inl refused ↦ rw (refused, set_master) done
      | inr ((p, l), e) ↦
          rw (e, set_master)
            (elim (Bool-cases (is_in new_master p.lid s)) [
              | inr outside ↦ rw outside done
              | inl inside ↦
                  let (_, found, _) = mastered_inv pid s p l e in
                  let (q, there, at) = is_in_inv new_master p.lid s inside in
                  rw inside (
                    alter-cases (Moves env top s) env p l _ _ s
                      (λ b.
                        more done (lobby_written p.lid l _ found (budget_spent top l b) refl refl))
                      (λ b. more done (
                        crowned p.lid l _ q found
                          (record {
                            players = refl;
                            idle_since = refl;
                            initiator = refl;
                            capacity = λ c. c;
                            metadata = λ small. small;
                          })
                          there at refl)))
            ])
    ])
  ]

  pub set_lobby_meta-Moves :
      {env : Env} {top : ℕ} (pid : BasicId) (key value : String) (s : BlasterEventLoop F)
      → Moves env top s (set_lobby_meta env pid key value s).0
  unfolding set_lobby_meta
  set_lobby_meta-Moves {env} {top} pid key value s = elim (Option-cases (mastered pid s)) [
    | inl refused ↦ rw (refused, set_lobby_meta) done
    | inr ((p, l), e) ↦
        rw (e, set_lobby_meta)
          (elim (Bool-cases (can_add l.metadata key)) [
            | inr large ↦ rw large done
            | inl fits ↦
                let (_, found, _) = mastered_inv pid s p l e in
                let r =
                  try_take_from_budget p l.metadata_budget (len key + len value) (env.now 0) in
                rw fits (elim (Bool-cases r.0) [
                  | inl enough ↦ rw enough (
                      more done (
                        lobby_written p.lid l _ found
                          (record {
                            players = refl;
                            idle_since = refl;
                            initiator = refl;
                            capacity = λ c. c;
                            metadata = insert-StaysSmall key value l.metadata fits;
                          })
                          refl refl))
                  | inr short ↦ rw short (
                      more done (
                        lobby_written p.lid l _ found
                          (record {
                            players = refl;
                            idle_since = refl;
                            initiator = refl;
                            capacity = λ c. c;
                            metadata = λ small. small;
                          })
                          refl refl))
                ])
          ])
  ]

  pub erase_lobby_meta-Moves :
      {env : Env} {top : ℕ} (pid : BasicId) (key : String) (s : BlasterEventLoop F)
      → Moves env top s (erase_lobby_meta env pid key s).0
  unfolding erase_lobby_meta
  erase_lobby_meta-Moves {env} {top} pid key s = elim (Option-cases (mastered pid s)) [
    | inl refused ↦ rw (refused, erase_lobby_meta) done
    | inr ((p, l), e) ↦
        rw (e, erase_lobby_meta)
          (elim (Bool-cases (contains_key key l.metadata)) [
            | inr gone ↦ rw gone done
            | inl there ↦
                let (_, found, _) = mastered_inv pid s p l e in
                rw there (
                  more done (
                    lobby_written p.lid l _ found
                      (record {
                        players = refl;
                        idle_since = refl;
                        initiator = refl;
                        capacity = λ c. c;
                        metadata = erase-StaysSmall key l.metadata;
                      })
                      refl refl))
          ])
  ]

  pub set_player_meta-Moves :
      {env : Env} {top : ℕ} (pid : BasicId) (key value : String) (s : BlasterEventLoop F)
      → Moves env top s (set_player_meta env pid key value s).0
  unfolding set_player_meta
  set_player_meta-Moves {env} {top} pid key value s = elim (Option-cases (lookup pid s.players)) [
    | inl gone ↦ rw (gone, set_player_meta) done
    | inr (p, there) ↦
        rw (there, set_player_meta)
          (elim (Bool-cases (can_add p.metadata key)) [
            | inr large ↦ rw large done
            | inl fits ↦
                rw fits
                  (elim (Result-cases
                    (Tokens.try_take (len key + len value) (env.now 0) p.metadata_budget).1) [
                      | inl (_, paid) ↦ rw paid (
                          more done (
                            player_written pid p _ there refl
                              (insert-StaysSmall key value p.metadata fits) refl))
                      | inr (_, short) ↦
                          rw short
                            (more done (player_written pid p _ there refl (λ small. small) refl))
                    ])
          ])
  ]

  pub erase_player_meta-Moves :
      {env : Env} {top : ℕ} (pid : BasicId) (key : String) (s : BlasterEventLoop F)
      → Moves env top s (erase_player_meta env pid key s).0
  unfolding erase_player_meta
  erase_player_meta-Moves {env} {top} pid key s = elim (Option-cases (lookup pid s.players)) [
    | inl gone ↦ rw (gone, erase_player_meta) done
    | inr (p, there) ↦
        rw (there, erase_player_meta)
          (elim (Bool-cases (contains_key key p.metadata)) [
            | inr absent ↦ rw absent done
            | inl present ↦ rw present (
                more done
                  (player_written pid p _ there refl (erase-StaysSmall key p.metadata) refl))
          ])
  ]

-- ===== src/Blaster/Moves/Rooms.antt =====
-- `HostLobby`, `JoinLobby` and `RemovePlayer` as moves.
use nut_blast.Base.{
  ℕ, ◌≡◌, refl, Bool, false, Option, none, some, [], List, inl, inr, arith, lookup,
  lookup-insert_self, Bool-cases, Option-cases, Result-cases, Result, ok, err, beq→eq, nat_eq,
  string_eq,
}
use nut_blast.Float.{Float}
use nut_blast.Protocol.Basic.{BasicId, GameId, LobbyId, null, is_null, lobby_id_eq}
use nut_blast.Protocol.Metadata.{Metadata}
use nut_blast.Protocol.Payloads.{Kick}
use nut_blast.Blaster.{IpAddr, Instant, TokioSender, Lobby, Sent, Env, is_full}
use nut_blast.Blaster.EventLoop.State.{
  BlasterEventLoop, put_lobby, insert_player, new_player, admit, cap_ip, welcome,
}
use nut_blast.Blaster.EventLoop.Rooms.{
  lobby_id, lobby_not_found, lobby_full, host_refusal, new_lobby, add_to_index, host_lobby,
  join_lobby, leave, remove_player,
}
use nut_blast.Blaster.Moves.{Moves, left, closed, forgotten, done, more}

module _ {F : Float} where
  -- A metered address changes the peers and nothing else.
  pub cap_ip-peers :
      (ip : IpAddr) (now : Instant) (s : BlasterEventLoop F)
      → (cap_ip ip now s).0 ≡ record s { peers = (cap_ip ip now s).0.peers }
  unfolding cap_ip
  cap_ip-peers ip now s = elim (Option-cases (lookup ip s.peers)) [
    | inl gone ↦ rw (gone, cap_ip) refl
    | inr (peer, there) ↦ rw (there, cap_ip) refl
  ]

  pub insert_player_lem :
      (env : Env) (sender : TokioSender) (pid : BasicId) (lid : LobbyId) (m : Metadata)
      (now bucket_now : Instant) (l : Lobby F) (s : BlasterEventLoop F)
      → lookup lid s.lobbies ≡ some l
      → let player = new_player lid l m sender now bucket_now in
        let s' = admit pid player lid l s in
        insert_player env sender pid lid m now bucket_now s ≡ some (s', welcome env player pid l s')
  unfolding insert_player
  insert_player_lem env sender pid lid m now bucket_now l s there = rw (there, insert_player)

module _ {ℓ} {F : Float}
    (P : Option (BlasterEventLoop F × List Sent × Result Kick BasicId) → Type ℓ) where
  -- A host is refused, or opens a lobby and enters it.
  pub host_lobby-cases :
      (env : Env) (ip : IpAddr) (gid : GameId) (m : Metadata) (capacity : ℕ) (listed : Bool)
      (pm : Metadata) (sender : TokioSender) (s : BlasterEventLoop F)
      → ((r : Kick) → P (some ((cap_ip ip (env.now 0) s).0, [], err r)))
      → ((sent : List Sent)
          → let s₁ = (cap_ip ip (env.now 0) s).0 in
            let lid = lobby_id gid (env.random 0) in
            let pid = env.random 1 in
            let l = new_lobby env ip m capacity listed pid in
            let player = new_player lid l pm sender (env.now 4) (env.now 5) in
            host_refusal ip gid listed s₁ ≡ none
            → P (
                some
                  (admit pid player lid l (add_to_index lid (put_lobby lid l s₁)), sent, ok pid)))
      → P (host_lobby env ip gid m capacity listed pm sender s)
  unfolding host_lobby add_to_index
  host_lobby-cases env ip gid m capacity listed pm sender s refused hosted =
      let s₁ = (cap_ip ip (env.now 0) s).0 in
      elim (Result-cases (cap_ip ip (env.now 0) s).1) [
        | inr (r, spent) ↦ rw (spent, host_lobby) (refused r)
        | inl (_, paid) ↦
            rw (paid, host_lobby)
              (elim (Option-cases (host_refusal ip gid listed s₁)) [
                | inr (r, e) ↦ rw e (refused r)
                | inl e ↦
                    let lid = lobby_id gid (env.random 0) in
                    let pid = env.random 1 in
                    let l = new_lobby env ip m capacity listed pid in
                    rw e (
                      rw
                        (insert_player_lem env sender pid lid pm (env.now 4) (env.now 5) l
                          (add_to_index lid (put_lobby lid l s₁))
                          (lookup-insert_self lid l s₁.lobbies))
                        (hosted _ e))
              ])
      ]

  -- A guest is refused, or enters a lobby that has room.
  pub join_lobby-cases :
      (env : Env) (ip : IpAddr) (lid : LobbyId) (pm : Metadata) (sender : TokioSender)
      (s : BlasterEventLoop F)
      → ((r : Kick) → P (some ((cap_ip ip (env.now 0) s).0, [], err r)))
      → ((l : Lobby F) (sent : List Sent)
          → let s₁ = (cap_ip ip (env.now 0) s).0 in
            let pid = env.random 0 in
            let player = new_player lid l pm sender (env.now 1) (env.now 2) in
            lookup lid s₁.lobbies ≡ some l
            → is_full l ≡ false
            → P (some (admit pid player lid l s₁, sent, ok pid)))
      → P (join_lobby env ip lid pm sender s)
  unfolding join_lobby
  join_lobby-cases env ip lid pm sender s refused guest =
      let s₁ = (cap_ip ip (env.now 0) s).0 in
      elim (Result-cases (cap_ip ip (env.now 0) s).1) [
        | inr (r, spent) ↦ rw (spent, join_lobby) (refused r)
        | inl (_, paid) ↦
            rw (paid, join_lobby)
              (elim (Option-cases (lookup lid s₁.lobbies)) [
                | inl gone ↦ rw gone (refused lobby_not_found)
                | inr (l, there) ↦ rw there (elim (Bool-cases (is_full l)) [
                  | inl full ↦ rw full (refused lobby_full)
                  | inr room ↦ rw room (
                      rw
                        (insert_player_lem env sender (env.random 0) lid pm (env.now 1) (env.now 2)
                          l s₁ there)
                        (guest l _ there room))
                ])
              ])
      ]

module _ {F : Float} {env : Env} {top : ℕ} where
  pub remove_player-Moves :
      (pid : BasicId) (reason : Kick) (s : BlasterEventLoop F)
      → Moves env top s (remove_player env pid reason s).0
  unfolding remove_player
  remove_player-Moves pid reason s = elim (Option-cases (lookup pid s.players)) [
    | inl gone ↦ rw (gone, remove_player) done
    | inr (p, there) ↦
        rw (there, remove_player)
          (elim (Option-cases (lookup p.lid s.lobbies)) [
            | inl missing ↦ rw missing (more done (forgotten pid p there missing refl))
            | inr (l, found) ↦ rw found (elim (Bool-cases (is_null (leave env pid l).master)) [
              | inl nulled ↦
                  rw nulled (more done (closed pid p l there found (beq→eq _ null nulled) refl))
              | inr named ↦ rw named (more done (left pid p l there found (λ e. ground arith) refl))
            ])
          ])
  ]

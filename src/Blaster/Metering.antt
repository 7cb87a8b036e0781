-- ===== src/Blaster/Metering.antt =====
-- How an address is metered, `cap_ip` of server/src/blaster/eventloop.rs.
use nut_blast.Base.{
  ◌≡◌, ◌≢◌, ◌⊎◌, refl, sym, none, some, lookup, lookup-insert_self, lookup-insert_ne,
  beq_false_of_ne, nat_eq, string_eq, Option-cases, Result-cases, ok, err, inl, inr, none≢some,
  some_inj, ◌∙◌, ap,
}
use nut_blast.Float.{Float}
use nut_blast.Tokens
use nut_blast.Protocol.Basic.{lobby_id_eq}
use nut_blast.Protocol.Payloads.{Kick}
use nut_blast.Blaster.{IpAddr, Instant, Peer}
use nut_blast.Blaster.EventLoop.State.{BlasterEventLoop, cap_ip, sessions_per_ip_error}

module _ {F : Float} where
  -- The address is unknown, or has no token left.
  abbrev pub IsHeldBack : IpAddr → Instant → BlasterEventLoop F → Type 0
  IsHeldBack ip now s =
      (lookup ip s.peers ≡ none)
      ⊎ ((p : Peer F) × (reason : Kick) × (lookup ip s.peers ≡ some p)
          × ((Tokens.try_take 1 now p.sessions_budget).1 ≡ err reason))

  -- The address is known and has a token.
  abbrev pub IsLetIn : IpAddr → Instant → BlasterEventLoop F → Type 0
  IsLetIn ip now s =
      (p : Peer F) × (lookup ip s.peers ≡ some p)
      × ((Tokens.try_take 1 now p.sessions_budget).1 ≡ ok tt)

  -- From `s` to `t` a token was asked for of the address, and nothing else has changed.
  pub record IsMetered (ip : IpAddr) (now : Instant) (s t : BlasterEventLoop F) : Type 0 where
    pub players : t.players ≡ s.players
    pub lobbies : t.lobbies ≡ s.lobbies
    pub gid_lobbies : t.gid_lobbies ≡ s.gid_lobbies
    pub config : t.config ≡ s.config
    pub others : (j : IpAddr) → j ≢ ip → lookup j t.peers ≡ lookup j s.peers
    pub unknown : lookup ip s.peers ≡ none → lookup ip t.peers ≡ none
    pub known :
        (p : Peer F)
        → lookup ip s.peers ≡ some p
        → lookup ip t.peers
          ≡ some (record p { sessions_budget = (Tokens.try_take 1 now p.sessions_budget).0 })

  pub cap_ip-IsMetered :
      (ip : IpAddr) (now : Instant) (s : BlasterEventLoop F)
      → let (t, allowed) = cap_ip ip now s in
        IsMetered ip now s t
        × ((IsHeldBack ip now s × (allowed ≡ err sessions_per_ip_error))
            ⊎ (IsLetIn ip now s × (allowed ≡ ok tt)))
  unfolding cap_ip
  cap_ip-IsMetered ip now s = elim (Option-cases (lookup ip s.peers)) [
    | inl gone ↦
        rw (cap_ip, gone)
          (
            record {
              players = refl;
              lobbies = refl;
              gid_lobbies = refl;
              config = refl;
              others = λ j apart. refl;
              unknown = λ e. gone;
              known = λ p e. absurd (none≢some (sym gone ∙ e));
            },
            inl (inl refl, refl),
          )
    | inr (peer, there) ↦
        let charged : Peer F = record peer {
          sessions_budget = (Tokens.try_take 1 now peer.sessions_budget).0;
        } in
        rw (cap_ip, there)
          (
            record {
              players = refl;
              lobbies = refl;
              gid_lobbies = refl;
              config = refl;
              others = λ j apart.
                  lookup-insert_ne ip j charged s.peers (beq_false_of_ne ip j (λ e. apart (sym e)));
              unknown = λ e. absurd (none≢some (sym e ∙ there));
              known = λ p e.
                  lookup-insert_self ip charged s.peers
                  ∙ ap
                      (λ (q : Peer F). some (record q {
                        sessions_budget = (Tokens.try_take 1 now q.sessions_budget).0;
                      }))
                      (some_inj (sym there ∙ e));
            },
            elim (Result-cases (Tokens.try_take 1 now peer.sessions_budget).1) [
              | inr (reason, spent) ↦ rw spent (inl (inr (peer, reason, refl, spent), refl))
              | inl (_, paid) ↦ rw paid (inr ((peer, refl, paid), refl))
            ],
          )
  ]

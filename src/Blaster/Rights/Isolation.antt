-- ===== src/Blaster/Rights/Isolation.antt =====
-- A player's operations are heard in the player's lobby and nowhere else.
use nut_blast.Base.{
  ◌≡◌, refl, sym, ◌∙◌, ap, subst, true, Option, some, List, [], ◌∷◌, ◌++◌, arith, Dict, lookup,
  filter_map, filter_map_skips, filter_map_takes, contains, nat_eq, string_eq, Option-cases,
  some_inj, beq_refl, inl, inr,
}
use mathlib.Core.Option
use nut_blast.Float.{Float}
use nut_blast.Protocol.Basic.{BasicId, LobbyId, lobby_id_eq}
use nut_blast.Protocol.Payloads.{ServerMessage}
use nut_blast.Blaster.{Env, Player, Sent, send}
use nut_blast.Blaster.EventLoop.State.{BlasterEventLoop, send_to_lobby}
use nut_blast.Blaster.Invariant.{IsValid, IsWalk}

module _ {F : Float} where
  -- The message goes to the channel of a player of the lobby.
  abbrev pub GoesTo : Dict BasicId (Player F) → LobbyId → Sent → Type 0
  GoesTo players lid m =
      (pid : BasicId) × (q : Player F) × (lookup pid players ≡ some q)
      × (q.lid ≡ lid)
      × (m.to ≡ q.sender)

  abbrev pub AllGoTo : Dict BasicId (Player F) → LobbyId → List Sent → Type 0
  AllGoTo players lid [] = Unit
  AllGoTo players lid (m ∷ ms) = GoesTo players lid m × AllGoTo players lid ms

  pub AllGoTo-append :
      (players : Dict BasicId (Player F)) (lid : LobbyId) (xs ys : List Sent)
      → AllGoTo players lid xs
      → AllGoTo players lid ys
      → AllGoTo players lid (xs ++ ys)
  AllGoTo-append players lid [] ys hx hy = hy
  AllGoTo-append players lid (x ∷ xs) ys hx hy = (hx.0, AllGoTo-append players lid xs ys hx.1 hy)

  -- Sending to ids each of which, if it is a player, is one of the lobby.
  filter_map-AllGoTo :
      (msg : ServerMessage) (lid : LobbyId) (players : Dict BasicId (Player F)) (ids : List BasicId)
      → ((x : BasicId) (q : Player F)
          → contains x ids ≡ true
          → lookup x players ≡ some q
          → q.lid ≡ lid)
      → AllGoTo players lid
          (filter_map (λ id. Option.map (λ p. send p msg) (lookup id players)) ids)
  unfolding send contains
  filter_map-AllGoTo msg lid players [] h = tt
  filter_map-AllGoTo msg lid players (id ∷ ids) h =
      let rest = filter_map-AllGoTo msg lid players ids (λ x q inside. h x q (ground arith)) in
      let tell : BasicId → Option Sent = λ x. Option.map (λ p. send p msg) (lookup x players) in
      elim (Option-cases (lookup id players)) [
        | inl gone ↦
            subst (AllGoTo players lid) (sym (filter_map_skips tell id ids (ground arith))) rest
        | inr (q, there) ↦
            subst (AllGoTo players lid)
              (sym (filter_map_takes tell id (send q msg) ids (ground arith)))
              ((id, q, there, h id q (ground (arith, beq_refl id)) there, refl), rest)
      ]

  pub send_to_lobby-AllGoTo :
      (env : Env) (lid : LobbyId) (msg : ServerMessage) (s : BlasterEventLoop F)
      → IsWalk env
      → IsValid s
      → AllGoTo s.players lid (send_to_lobby env lid msg s)
  unfolding send_to_lobby
  send_to_lobby-AllGoTo env lid msg s walk v = elim (Option-cases (lookup lid s.lobbies)) [
    | inl gone ↦ rw (gone, send_to_lobby) tt
    | inr (l, there) ↦
        rw (there, send_to_lobby)
          (filter_map-AllGoTo msg lid s.players (env.iter l.players) λ x q inside found.
            let (q', found', at) = v.guest lid l x there (sym (walk.meets x l.players) ∙ inside) in
            ap (λ (r : Player F). r.lid) (some_inj (sym found ∙ found')) ∙ at)
  ]

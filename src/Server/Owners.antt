-- ===== src/Server/Owners.antt =====
-- To whom the players of the event loop belong, server/src.
pub mod History
use nut_blast.Base.{
  ℕ, ◌≡◌, ◌⊎◌, refl, sym, ◌∙◌, ap, subst, Bool, true, false, ◌||◌, Option, none, some, List, [],
  ◌∷◌, ◌++◌, map, arith, ◌==◌, nat_eq, Dict, lookup, insert, lookup-insert_self, lookup-insert_ne,
  Bool-cases, Option-cases, inl, inr, some_inj, none≢some, beq→eq, beq_refl, is_some,
}
use nut_blast.Float.{Float}
use nut_blast.Protocol.Basic.{BasicId}
use nut_blast.Protocol.Payloads.{Kick, ServerMessage}
use nut_blast.Blaster.{BlasterOperation, Reply}
use nut_blast.Blaster.Population.{is_removal, is_seating}
use nut_blast.Session.{Session, Turned, Turn, done, waits, Awaited, send}
use nut_blast.Session.Serve.{Round, conclude, farewell}
use nut_blast.Session.Orders.{SameClient, IsTurn}
use nut_blast.Server.{
  Connection, knocking, greeted, serving, waiting, gone, Posted, Server, send_off, leave, proceed,
}
use nut_blast.Server.Turns.{by_verdict}

-- The player's removal is in the queue.
unfoldable pub is_leaving : BasicId → List Posted → Bool
is_leaving pid [] = false
is_leaving pid (p ∷ ps) = is_removal pid p.op || is_leaving pid ps

is_leaving-append :
    (pid : BasicId) (ps qs : List Posted)
    → is_leaving pid (ps ++ qs) ≡ (is_leaving pid ps || is_leaving pid qs)
unfolding is_leaving
is_leaving-append pid [] qs = refl
is_leaving-append pid (p ∷ ps) qs = ground (arith, is_leaving-append pid ps qs)

module _ {F : Float} where
  -- The player that the session of a connection speaks for.
  abbrev pub player_of : Connection F → Option BasicId
  player_of (Connection.serving s) = s.pid
  player_of (Connection.waiting s a) = s.pid
  player_of c = none

  -- A session speaks for the player, or its removal is in the queue.
  abbrev pub HasOwner : Dict ℕ (Connection F) → List Posted → BasicId → Type 0
  HasOwner connections queue pid =
      ((id : ℕ) × (c : Connection F) × (lookup id connections ≡ some c) × (player_of c ≡ some pid))
      ⊎ (is_leaving pid queue ≡ true)

  -- The connection keeps the player, or the removal is posted.
  abbrev pub Keeps : BasicId → Connection F × List Posted → Type 0
  Keeps pid r = (player_of r.0 ≡ some pid) ⊎ (is_leaving pid r.1 ≡ true)

  leaving_farewell :
      (pid : BasicId) (s : Session F) (xs : List BlasterOperation) (ys : List Posted)
      → s.pid ≡ some pid
      → is_leaving pid (map send_off (xs ++ farewell s) ++ ys) ≡ true
  unfolding is_leaving farewell
  leaving_farewell pid s [] ys known = ground (arith, known, beq_refl pid)
  leaving_farewell pid s (x ∷ xs) ys known = ground (arith, leaving_farewell pid s xs ys known)

  -- A session that speaks for a player goes on to, or ends with the player's removal.
  pub conclude-Keeps :
      (pid : BasicId) (t : Turned F) → t.session.pid ≡ some pid → Keeps pid (leave (conclude t))
  unfolding leave conclude send
  conclude-Keeps pid t known =
      by_verdict (λ r. Keeps pid (leave r)) t.verdict t.session.stop _ _ _
        (λ reason. inr (
          leaving_farewell pid (send (ServerMessage.disconnected reason) t.session) t.executed _
            known))
        (inr (leaving_farewell pid t.session t.executed _ known)) (inl known)

  pub proceed-Keeps :
      (id : ℕ) (pid : BasicId) (s : Session F) (t : Turn F)
      → IsTurn s t
      → s.pid ≡ some pid
      → Keeps pid (proceed id t)
  unfolding proceed
  proceed-Keeps id pid s (done t) (c, h) known = conclude-Keeps pid t (c.pid ∙ known)
  proceed-Keeps id pid s (waits s' op a) (c, h) known = inl (c.pid ∙ known)

  pub put-HasOwner :
      (id : ℕ) (pid : BasicId) (old : Connection F) (r : Connection F × List Posted)
      (connections : Dict ℕ (Connection F)) (queue : List Posted)
      → lookup id connections ≡ some old
      → (player_of old ≡ some pid → Keeps pid r)
      → HasOwner connections queue pid
      → HasOwner (insert id r.0 connections) (queue ++ r.1) pid
  put-HasOwner id pid old r connections queue there keeps (inr leaves) =
      inr (ground (arith, is_leaving-append pid queue r.1, leaves))
  put-HasOwner id pid old r connections queue there keeps (inl (j, c, found, own)) =
      elim (Bool-cases (id == j)) [
        | inr apart ↦ inl (j, c, lookup-insert_ne id j r.0 connections apart ∙ found, own)
        | inl same ↦
            let is_old : c ≡ old =
              some_inj
                (sym found ∙ ap (λ i. lookup i connections) (sym (beq→eq id j same)) ∙ there) in
            elim (keeps (ap player_of (sym is_old) ∙ own)) [
              | inl kept ↦ inl (id, r.0, lookup-insert_self id r.0 connections, kept)
              | inr leaves ↦ inr (ground (arith, is_leaving-append pid queue r.1, leaves))
            ]
      ]

  -- A new connection, and other posts, take no player away.
  pub accept-HasOwner :
      (id : ℕ) (pid : BasicId) (r : Connection F × List Posted)
      (connections : Dict ℕ (Connection F)) (queue : List Posted)
      → lookup id connections ≡ none
      → HasOwner connections queue pid
      → HasOwner (insert id r.0 connections) (queue ++ r.1) pid
  accept-HasOwner id pid r connections queue new (inr leaves) =
      inr (ground (arith, is_leaving-append pid queue r.1, leaves))
  accept-HasOwner id pid r connections queue new (inl (j, c, found, own)) =
      elim (Bool-cases (id == j)) [
        | inr apart ↦ inl (j, c, lookup-insert_ne id j r.0 connections apart ∙ found, own)
        | inl same ↦
            absurd (none≢some (sym new ∙ ap (λ i. lookup i connections) (beq→eq id j same) ∙ found))
      ]

  pub post-HasOwner :
      (pid : BasicId) (connections : Dict ℕ (Connection F)) (queue posts : List Posted)
      → HasOwner connections queue pid
      → HasOwner connections (queue ++ posts) pid
  post-HasOwner pid connections queue posts (inl owner) = inl owner
  post-HasOwner pid connections queue posts (inr leaves) =
      inr (ground (arith, is_leaving-append pid queue posts, leaves))

  pub taken-HasOwner :
      (pid : BasicId) (connections : Dict ℕ (Connection F)) (p : Posted) (posts : List Posted)
      → is_removal pid p.op ≡ false
      → HasOwner connections (p ∷ posts) pid
      → HasOwner connections posts pid
  unfolding is_leaving
  taken-HasOwner pid connections p posts stays (inl owner) = inl owner
  taken-HasOwner pid connections p posts stays (inr leaves) = inr (ground (arith, stays, leaves))

  pub Keeps-HasOwner :
      (id : ℕ) (pid : BasicId) (r : Connection F × List Posted)
      (connections : Dict ℕ (Connection F)) (queue : List Posted)
      → Keeps pid r
      → HasOwner (insert id r.0 connections) (queue ++ r.1) pid
  Keeps-HasOwner id pid r connections queue (inl kept) =
      inl (id, r.0, lookup-insert_self id r.0 connections, kept)
  Keeps-HasOwner id pid r connections queue (inr leaves) =
      inr (ground (arith, is_leaving-append pid queue r.1, leaves))

-- ===== src/Blaster/Invariant/Writes.antt =====
-- Writes that leave the rooms alone keep a state well-formed.
use nut_blast.Base.{
  ◌≡◌, sym, ◌∙◌, ap, subst, true, some, inl, inr, arith, ◌==◌, lookup, insert, lookup-insert,
  lookup-insert_inv, lookup-insert_ne, lookup-insert_at, contains, is_some, Bool-cases, beq→eq,
  beq_false_of_lookup, nat_eq, string_eq, some_inj,
}
use nut_blast.Float.{Float}
use nut_blast.Protocol.Basic.{BasicId, LobbyId, null, lobby_id_eq}
use nut_blast.Blaster.{IpAddr, Lobby, Player, Peer}
use nut_blast.Blaster.EventLoop.State.{BlasterEventLoop, put_lobby, put_player}
use nut_blast.Blaster.EventLoop.Rooms.{indexed, lobby_id}
use nut_blast.Blaster.Invariant.{LobbyIsValid, Houses, IsValid}
use nut_blast.Base.{Dict}

module _ {F : Float} where
  pub peers_written-IsValid :
      (peers : Dict IpAddr (Peer F)) (s : BlasterEventLoop F)
      → IsValid s
      → IsValid (record s { peers = peers })
  unfolding indexed
  peers_written-IsValid peers s v = record {
    rooms = v.rooms;
    home = v.home;
    guest = v.guest;
    no_null = v.no_null;
    index = v.index;
    unique = v.unique;
    no_empty = v.no_empty;
  }

  -- A lobby is there after a write to one that is there, exactly if it was there before.
  pub is_some-insert_old :
      (lid j : LobbyId) (l l' : Lobby F) (s : BlasterEventLoop F)
      → lookup lid s.lobbies ≡ some l
      → is_some (lookup j (insert lid l' s.lobbies)) ≡ is_some (lookup j s.lobbies)
  is_some-insert_old lid j l l' s found =
      ground (arith, lookup-insert lid j l' s.lobbies, beq→eq lid j)

  -- A player keeps its place where its lobby is rewritten, with the player still in it.
  pub insert-Houses :
      (lid : LobbyId) (l l' : Lobby F) (d : Dict LobbyId (Lobby F)) (pid : BasicId) (j : LobbyId)
      → lookup lid d ≡ some l
      → (contains pid l.players ≡ true → contains pid l'.players ≡ true)
      → Houses d pid j
      → Houses (insert lid l' d) pid j
  insert-Houses lid l l' d pid j found keep (m, there, inside) = elim (Bool-cases (lid == j)) [
    | inl same ↦
        let e : l ≡ m = some_inj (sym found ∙ ap (λ k. lookup k d) (beq→eq lid j same) ∙ there) in
        (
          l',
          lookup-insert_at lid j l' d same,
          keep (subst (λ (r : Lobby F). contains pid r.players ≡ true) (sym e) inside),
        )
    | inr other ↦ (m, lookup-insert_ne lid j l' d other ∙ there, inside)
  ]

  -- A lobby is rewritten, with the same players and a master among them.
  pub lobby_written-IsValid :
      (lid : LobbyId) (l l' : Lobby F) (s : BlasterEventLoop F)
      → lookup lid s.lobbies ≡ some l
      → l'.players ≡ l.players
      → l'.idle_since ≡ l.idle_since
      → contains l'.master l.players ≡ true
      → IsValid s
      → IsValid (put_lobby lid l' s)
  unfolding indexed
  lobby_written-IsValid lid l l' s found same idle master v = record {
    rooms = λ j m h. elim (lookup-insert_inv lid j l' m s.lobbies h) [
      | inl (_, e) ↦ subst LobbyIsValid e valid
      | inr (_, old) ↦ v.rooms j m old
    ];
    home = λ pid p h.
        insert-Houses lid l l' s.lobbies pid p.lid found (λ inside. rw same inside)
          (v.home pid p h);
    guest = λ j m pid h inside. elim (lookup-insert_inv lid j l' m s.lobbies h) [
      | inl (here, e) ↦
          let inside' : contains pid l.players ≡ true =
            subst (λ xs. contains pid xs ≡ true) (sym (ap (λ (r : Lobby F). r.players) e) ∙ same)
              inside in
          let (p, there, at) = v.guest lid l pid found inside' in (p, there, at ∙ here)
      | inr (_, old) ↦ v.guest j m pid old inside
    ];
    no_null = v.no_null;
    index = λ gid j. v.index gid j ∙ sym (is_some-insert_old lid (lobby_id gid j) l l' s found);
    unique = v.unique;
    no_empty = v.no_empty;
  }
    where
      old : LobbyIsValid l
      old = v.rooms lid l found

      valid : LobbyIsValid l'
      valid = record {
        master = rw same master;
        distinct = rw same old.distinct;
        idle = rw (same, idle) old.idle;
      }

  -- A player is rewritten, in its place.
  pub player_written-IsValid :
      (pid : BasicId) (p p' : Player F) (s : BlasterEventLoop F)
      → lookup pid s.players ≡ some p
      → p'.lid ≡ p.lid
      → IsValid s
      → IsValid (put_player pid p' s)
  unfolding indexed
  player_written-IsValid pid p p' s found same v = record {
    rooms = v.rooms;
    home = λ other q h. elim (lookup-insert_inv pid other p' q s.players h) [
      | inl (here, e) ↦
          subst (λ k. Houses s.lobbies k q.lid) here
            (subst (Houses s.lobbies pid) (sym same ∙ ap (λ (r : Player F). r.lid) e)
              (v.home pid p found))
      | inr (_, old) ↦ v.home other q old
    ];
    guest = λ lid l other h inside.
        let (q, there, at) = v.guest lid l other h inside in
        elim (Bool-cases (pid == other)) [
          | inl here ↦
              let e : p ≡ q =
                some_inj
                  (sym found ∙ ap (λ k. lookup k s.players) (beq→eq pid other here) ∙ there) in
              (
                p',
                lookup-insert_at pid other p' s.players here,
                same ∙ ap (λ (r : Player F). r.lid) e ∙ at,
              )
          | inr apart ↦ (q, lookup-insert_ne pid other p' s.players apart ∙ there, at)
        ];
    no_null =
        lookup-insert_ne pid null p' s.players
          (beq_false_of_lookup pid null p s.players found v.no_null)
        ∙ v.no_null;
    index = v.index;
    unique = v.unique;
    no_empty = v.no_empty;
  }

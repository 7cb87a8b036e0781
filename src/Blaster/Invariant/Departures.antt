-- ===== src/Blaster/Invariant/Departures.antt =====
-- `RemovePlayer` keeps a state well-formed, whether the lobby goes on or is closed.
use mathlib.Core.Bool.{false≢true}
use text.Mathlib.TextEquality.{eq_iff}
use nut_blast.Base.{
  IsSetList, ◌≡◌, ◌≢◌, refl, sym, ◌∙◌, ap, subst, true, false, none, some, List, [], ◌∷◌, inl, inr,
  arith, ◌==◌, Dict, lookup, insert, erase, lookup-insert, lookup-erase, lookup-insert_inv,
  lookup-erase_inv, lookup-erase_ne, length, head?, remove, contains, contains-remove,
  contains-head, contains-no_head, length-remove_le, IsSetList-remove, Bool-cases, Option-cases,
  beq_refl, beq_false_of_lookup, nat_eq, string_eq, none≢some, some_inj, if◌then◌else◌, leb,
}
use nut_blast.Float.{Float}
use nut_blast.Protocol.Basic.{BasicId, GameId, LobbyId, null, lobby_id_eq}
use nut_blast.Blaster.{Lobby, Player, Env}
use nut_blast.Blaster.EventLoop.State.{BlasterEventLoop, put_lobby}
use nut_blast.Blaster.EventLoop.Rooms.{or_empty, indexed, lobby_id, remove_from_index, leave}
use nut_blast.Blaster.Moves.{closed_state}
use nut_blast.Blaster.Invariant.{LobbyIsValid, IsValid, IsWalk}
use nut_blast.Blaster.Invariant.Writes.{is_some-insert_old}
use nut_blast.Blaster.Invariant.Local.{IsLocal, IsLocal-IsValid}

nil_of_length {ℓ} : {A : Type ℓ} (xs : List A) → leb (length xs) 0 ≡ true → xs ≡ []
nil_of_length [] h = refl
nil_of_length (x ∷ xs) h = absurd (ground arith)

-- The index after a lobby is taken off it.
or_empty-remove_from_index :
    (lid : LobbyId) (gid : GameId) (d : Dict GameId (List BasicId))
    → or_empty (lookup gid (remove_from_index lid d)) ≡ (
        if lid.gid == gid
        then remove lid.lid (or_empty (lookup lid.gid d))
        else or_empty (lookup gid d))
unfolding remove_from_index remove
or_empty-remove_from_index lid gid d = elim (Option-cases (lookup lid.gid d)) [
  | inl gone ↦ rw (gone, remove_from_index) (ground (arith, eq_iff lid.gid gid))
  | inr (set, there) ↦
      rw (there, remove_from_index)
        (elim (Bool-cases (leb (length (remove lid.lid set)) 0)) [
          | inl bare ↦
              rw bare (
                ground (arith, lookup-erase lid.gid gid d, nil_of_length (remove lid.lid set) bare))
          | inr rest ↦ rw rest (ground (arith, lookup-insert lid.gid gid (remove lid.lid set) d))
        ])
]

contains-remove_from_index :
    (lid : LobbyId) (gid : GameId) (j : BasicId) (d : Dict GameId (List BasicId))
    → contains j (or_empty (lookup gid (remove_from_index lid d)))
      ≡ (if lid == lobby_id gid j then false else contains j (or_empty (lookup gid d)))
contains-remove_from_index lid gid j d =
    rw (or_empty-remove_from_index lid gid d)
      (ground (arith, contains-remove lid.lid j (or_empty (lookup lid.gid d)), eq_iff lid.gid gid))

IsSetList-remove_from_index :
    (lid : LobbyId) (gid : GameId) (d : Dict GameId (List BasicId))
    → ((g : GameId) → IsSetList (or_empty (lookup g d)))
    → IsSetList (or_empty (lookup gid (remove_from_index lid d)))
IsSetList-remove_from_index lid gid d unique =
    rw (or_empty-remove_from_index lid gid d) (elim (Bool-cases (lid.gid == gid)) [
      | inl same ↦ rw same (IsSetList-remove lid.lid (or_empty (lookup lid.gid d)) (unique lid.gid))
      | inr other ↦ rw other (unique gid)
    ])

no_empty-remove_from_index :
    (lid : LobbyId) (gid : GameId) (d : Dict GameId (List BasicId))
    → lookup gid d ≢ some []
    → lookup gid (remove_from_index lid d) ≢ some []
unfolding remove_from_index
no_empty-remove_from_index lid gid d h e = elim (Option-cases (lookup lid.gid d)) [
  | inl gone ↦ h (rw (gone, remove_from_index) at e)
  | inr (set, there) ↦
      let e' = rw (there, remove_from_index) at e in
      elim (Bool-cases (leb (length (remove lid.lid set)) 0)) [
        | inl bare ↦ h (lookup-erase_inv lid.gid gid [] d (rw bare at e')).1
        | inr rest ↦
            elim (lookup-insert_inv lid.gid gid (remove lid.lid set) [] d (rw rest at e')) [
              | inl (_, bare) ↦
                  false≢true (sym rest ∙ ap (λ (xs : List BasicId). leb (length xs) 0) bare)
              | inr (_, old) ↦ h old
            ]
      ]
]

module _ {F : Float} (env : Env) (walk : IsWalk env) where
  -- The new master is one of those who stay.
  pub leave_master :
      (pid : BasicId) (l : Lobby F)
      → LobbyIsValid l
      → (leave env pid l).master ≢ null
      → contains (leave env pid l).master (remove pid l.players) ≡ true
  unfolding leave
  leave_master pid l v named = elim (Bool-cases (pid == l.master)) [
    | inl own ↦ elim (Option-cases (head? (env.iter (remove pid l.players)))) [
      | inl nobody ↦ absurd (named (rw (own, nobody)))
      | inr (new, first) ↦
          rw (own, first) (sym (walk.meets new (remove pid l.players)) ∙ contains-head new _ first)
    ]
    | inr other ↦ rw other (rw (contains-remove pid l.master l.players, other) v.master)
  ]

  -- What is left of a lobby that goes on.
  leave-LobbyIsValid :
      (pid : BasicId) (l : Lobby F)
      → LobbyIsValid l
      → (leave env pid l).master ≢ null
      → LobbyIsValid (leave env pid l)
  unfolding leave
  leave-LobbyIsValid pid l v named = record {
    master = leave_master pid l v named;
    distinct = IsSetList-remove pid l.players v.distinct;
    idle = ground (arith, length-remove_le pid l.players, v.idle);
  }

  pub contains-leave :
      (pid x : BasicId) (l : Lobby F)
      → contains x (leave env pid l).players ≡ (if pid == x then false else contains x l.players)
  unfolding leave
  contains-leave pid x l = contains-remove pid x l.players

  -- Who stays in a lobby is still a player.
  stayer :
      (pid x : BasicId) (lid : LobbyId) (l : Lobby F) (s : BlasterEventLoop F)
      → IsValid s
      → lookup lid s.lobbies ≡ some l
      → contains x (leave env pid l).players ≡ true
      → (q : Player F) × (lookup x (erase pid s.players) ≡ some q) × (q.lid ≡ lid)
  stayer pid x lid l s v there inside = elim (Bool-cases (pid == x)) [
    | inl here ↦ absurd (false≢true (sym (rw here at (contains-leave pid x l)) ∙ inside))
    | inr apart ↦
        let (q, found, at) =
          v.guest lid l x there (sym (rw apart at (contains-leave pid x l)) ∙ inside) in
        (q, lookup-erase_ne pid x s.players apart ∙ found, at)
  ]

  -- A player stands in no lobby but its own.
  only_home :
      (pid : BasicId) (p : Player F) (j : LobbyId) (m : Lobby F) (s : BlasterEventLoop F)
      → IsValid s
      → lookup pid s.players ≡ some p
      → (p.lid == j) ≡ false
      → lookup j s.lobbies ≡ some m
      → contains pid m.players ≡ false
  only_home pid p j m s v found apart h = elim (Bool-cases (contains pid m.players)) [
    | inl inside ↦
        let (q, there, at) = v.guest j m pid h inside in
        let same : p.lid ≡ j = ap (λ (r : Player F). r.lid) (some_inj (sym found ∙ there)) ∙ at in
        absurd (false≢true (sym apart ∙ ap (λ k. p.lid == k) (sym same) ∙ beq_refl p.lid))
    | inr outside ↦ outside
  ]

  pub left-IsValid :
      (pid : BasicId) (p : Player F) (l : Lobby F) (s : BlasterEventLoop F)
      → lookup pid s.players ≡ some p
      → lookup p.lid s.lobbies ≡ some l
      → (leave env pid l).master ≢ null
      → IsValid s
      → IsValid (put_lobby p.lid (leave env pid l) (record s { players = erase pid s.players }))
  unfolding indexed
  left-IsValid pid p l s found there named v = IsLocal-IsValid local v
    where
      local :
          IsLocal s
            (put_lobby p.lid (leave env pid l) (record s { players = erase pid s.players }))
            pid
            p.lid
            none
            (some (leave env pid l))
      local = record {
        players = λ x. lookup-erase pid x s.players;
        lobbies = λ j. lookup-insert p.lid j (leave env pid l) s.lobbies;
        named = beq_false_of_lookup pid null p s.players found v.no_null;
        room = λ m e.
            subst LobbyIsValid (some_inj e)
              (leave-LobbyIsValid pid l (v.rooms p.lid l there) named);
        home = λ q e. absurd (none≢some e);
        stays = λ x m apart h inside. (
          leave env pid l,
          refl,
          rw (contains-leave pid x l, apart)
              (subst (λ (r : Lobby F). contains x r.players ≡ true) (some_inj (sym h ∙ there))
                inside),
        );
        guest = λ x m e inside.
            stayer pid x p.lid l s v there
              (subst (λ (r : Lobby F). contains x r.players ≡ true) (sym (some_inj e)) inside);
        nowhere_else = λ j m apart h. only_home pid p j m s v found apart h;
        index = λ gid j.
            v.index gid j
            ∙ sym (is_some-insert_old p.lid (lobby_id gid j) l (leave env pid l) s there);
        unique = v.unique;
        no_empty = v.no_empty;
      }

  -- The null id stands in no lobby.
  null_outside :
      (lid : LobbyId) (l : Lobby F) (s : BlasterEventLoop F)
      → IsValid s
      → lookup lid s.lobbies ≡ some l
      → contains null l.players ≡ true
      → ⊥
  null_outside lid l s v there inside =
      let (p, found, _) = v.guest lid l null there inside in none≢some (sym v.no_null ∙ found)

  contains_of_remove :
      (pid x : BasicId) (l : Lobby F)
      → contains x (remove pid l.players) ≡ true
      → contains x l.players ≡ true
  contains_of_remove pid x l h = ground (arith, contains-remove pid x l.players)

  -- A lobby is closed when nobody stays.
  pub nobody_stays :
      (pid x : BasicId) (lid : LobbyId) (l : Lobby F) (s : BlasterEventLoop F)
      → IsValid s
      → lookup lid s.lobbies ≡ some l
      → (leave env pid l).master ≡ null
      → contains x (leave env pid l).players ≡ false
  unfolding leave
  nobody_stays pid x lid l s v there nulled = elim (Bool-cases (pid == l.master)) [
    | inl own ↦ elim (Option-cases (head? (env.iter (remove pid l.players)))) [
      | inl nobody ↦ sym (walk.meets x (remove pid l.players)) ∙ contains-no_head x _ nobody
      | inr (new, first) ↦
          let is_null : new ≡ null = rw (own, first) at nulled in
          absurd (
            null_outside lid l s v there (
              subst (λ k. contains k l.players ≡ true) is_null
                (contains_of_remove pid new l
                  (sym (walk.meets new (remove pid l.players)) ∙ contains-head new _ first))))
    ]
    | inr other ↦
        let is_null : l.master ≡ null = rw other at nulled in
        absurd (
          null_outside lid l s v there
            (subst (λ k. contains k l.players ≡ true) is_null (v.rooms lid l there).master))
  ]

  pub closed-IsValid :
      (pid : BasicId) (p : Player F) (l : Lobby F) (s : BlasterEventLoop F)
      → lookup pid s.players ≡ some p
      → lookup p.lid s.lobbies ≡ some l
      → (leave env pid l).master ≡ null
      → IsValid s
      → IsValid (closed_state env pid p.lid l s)
  unfolding indexed
  closed-IsValid pid p l s found there nulled v = IsLocal-IsValid local v
    where
      lobbies :
          (j : LobbyId)
          → lookup j (erase p.lid (insert p.lid (leave env pid l) s.lobbies))
            ≡ (if p.lid == j then none else lookup j s.lobbies)
      lobbies j = ground (
        arith,
        lookup-erase p.lid j (insert p.lid (leave env pid l) s.lobbies),
        lookup-insert p.lid j (leave env pid l) s.lobbies,
      )

      local : IsLocal s (closed_state env pid p.lid l s) pid p.lid none none
      local = record {
        players = λ x. lookup-erase pid x s.players;
        lobbies = lobbies;
        named = beq_false_of_lookup pid null p s.players found v.no_null;
        room = λ m e. absurd (none≢some e);
        home = λ q e. absurd (none≢some e);
        stays = λ x m apart h inside. absurd (
            false≢true (
              sym (nobody_stays pid x p.lid l s v there nulled)
              ∙ rw (contains-leave pid x l, apart)
                  (subst (λ (r : Lobby F). contains x r.players ≡ true) (some_inj (sym h ∙ there))
                    inside)));
        guest = λ x m e inside. absurd (none≢some e);
        nowhere_else = λ j m apart h. only_home pid p j m s v found apart h;
        index = λ gid j.
            contains-remove_from_index p.lid gid j s.gid_lobbies
            ∙ ground (arith, v.index gid j, lobbies (lobby_id gid j));
        unique = λ gid. IsSetList-remove_from_index p.lid gid s.gid_lobbies v.unique;
        no_empty = λ gid. no_empty-remove_from_index p.lid gid s.gid_lobbies (v.no_empty gid);
      }

-- ===== src/Blaster/Invariant/Arrivals.antt =====
-- `insert_player` keeps a state well-formed, after `JoinLobby` and after `HostLobby`.
use nut_blast.Base.{
  IsSetList, ℕ, ◌≡◌, ◌≢◌, refl, sym, ◌∙◌, ap, subst, true, false, none, some, [], inl, inr, arith,
  ◌==◌, lookup, insert, lookup-insert, lookup-insert_inv, add, contains, contains-add,
  length-add_new, is_some, Bool-cases, beq_refl, beq_false_of_ne, nat_eq, string_eq, none≢some,
  some_inj, if◌then◌else◌, IsSetList-add,
}
use mathlib.Core.Bool.{false≢true}
use text.Mathlib.TextEquality.{eq_iff}
use nut_blast.Float.{Float}
use nut_blast.Protocol.Basic.{BasicId, GameId, LobbyId, null, lobby_id_eq}
use nut_blast.Blaster.{Lobby, Player}
use nut_blast.Blaster.EventLoop.State.{BlasterEventLoop, put_lobby, admit, enter}
use nut_blast.Blaster.EventLoop.Rooms.{or_empty, indexed, lobby_id, add_to_index}
use nut_blast.Blaster.Moves.{IsNewcomer, IsNewRoom}
use nut_blast.Blaster.Invariant.{LobbyIsValid, Houses, IsValid}
use nut_blast.Blaster.Invariant.Writes.{is_some-insert_old}
use nut_blast.Blaster.Invariant.Local.{IsLocal, IsLocal-IsValid}

outside_null : (pid : BasicId) → pid ≢ null → (pid == null) ≡ false
outside_null pid h = beq_false_of_ne pid null h

module _ {F : Float} where
  -- A player who is not in a valid lobby yet comes in.
  enter-LobbyIsValid :
      (pid : BasicId) (l : Lobby F)
      → contains pid l.players ≡ false
      → LobbyIsValid l
      → LobbyIsValid (enter pid l)
  unfolding enter
  enter-LobbyIsValid pid l new v = record {
    master = ground (arith, contains-add pid l.master l.players, v.master);
    distinct = IsSetList-add pid l.players v.distinct;
    idle = ground (arith, length-add_new pid l.players new, v.idle);
  }

  -- The lobby of a host, once the host is in.
  enter_new-LobbyIsValid :
      {top : ℕ} (pid : BasicId) (l : Lobby F) → IsNewRoom top pid l → LobbyIsValid (enter pid l)
  unfolding enter add contains
  enter_new-LobbyIsValid pid l v = record {
    master = rw (v.players, v.master, beq_refl pid);
    distinct = rw v.players (refl, tt);
    idle = rw v.players v.idle_since;
  }

  -- A newcomer stands in no lobby.
  pub newcomer_outside :
      (pid : BasicId) (lid : LobbyId) (l : Lobby F) (s : BlasterEventLoop F)
      → IsValid s
      → lookup pid s.players ≡ none
      → lookup lid s.lobbies ≡ some l
      → contains pid l.players ≡ false
  newcomer_outside pid lid l s v fresh found = elim (Bool-cases (contains pid l.players)) [
    | inl inside ↦
        let (p, there, _) = v.guest lid l pid found inside in absurd (none≢some (sym fresh ∙ there))
    | inr outside ↦ outside
  ]

  contains-enter_self : (pid : BasicId) (l : Lobby F) → contains pid (enter pid l).players ≡ true
  unfolding enter
  contains-enter_self pid l = rw (contains-add pid pid l.players, beq_refl pid)

  contains-enter_apart :
      (pid x : BasicId) (l : Lobby F)
      → (pid == x) ≡ false
      → contains x (enter pid l).players ≡ contains x l.players
  unfolding enter
  contains-enter_apart pid x l h = rw (contains-add pid x l.players, h)

  -- A state that differs by the newcomer and by the lobby, entered from `l`, whose players were
  -- already housed there.
  arrival-IsValid :
      (pid : BasicId) (player : Player F) (lid : LobbyId) (l : Lobby F) (s t : BlasterEventLoop F)
      → IsNewcomer pid player lid s
      → t.players ≡ insert pid player s.players
      → ((j : LobbyId)
          → lookup j t.lobbies ≡ (if lid == j then some (enter pid l) else lookup j s.lobbies))
      → LobbyIsValid (enter pid l)
      → ((x : BasicId) → contains x l.players ≡ true → Houses s.lobbies x lid)
      → ((m : Lobby F) → lookup lid s.lobbies ≡ some m → m ≡ l)
      → ((gid : GameId) (j : BasicId)
          → contains j (indexed gid t) ≡ is_some (lookup (lobby_id gid j) t.lobbies))
      → ((gid : GameId) → IsSetList (indexed gid t))
      → ((gid : GameId) → lookup gid t.gid_lobbies ≢ some [])
      → IsValid s
      → IsValid t
  arrival-IsValid pid player lid l s t n players lobbies room housed same index unique no_empty v =
      IsLocal-IsValid local v
    where
      entry :
          (x : BasicId)
          → lookup x t.players ≡ (if pid == x then some player else lookup x s.players)
      entry x = ap (lookup x) players ∙ lookup-insert pid x player s.players

      local : IsLocal s t pid lid (some player) (some (enter pid l))
      local = record {
        players = entry;
        lobbies = lobbies;
        named = outside_null pid n.named;
        room = λ m e. subst LobbyIsValid (some_inj e) room;
        home = λ p e. (
          ap (λ (r : Player F). r.lid) (sym (some_inj e)) ∙ n.lid_eq,
          (enter pid l, refl, contains-enter_self pid l),
        );
        stays = λ x m apart there inside. (
          enter pid l,
          refl,
          contains-enter_apart pid x l apart
              ∙ subst (λ (r : Lobby F). contains x r.players ≡ true) (same m there) inside,
        );
        guest = λ x m e inside. elim (Bool-cases (pid == x)) [
          | inl here ↦ (player, rw (entry x, here), n.lid_eq)
          | inr apart ↦
              let inside' : contains x (enter pid l).players ≡ true =
                subst (λ (r : Lobby F). contains x r.players ≡ true) (sym (some_inj e)) inside in
              let (k, there, at) = housed x (sym (contains-enter_apart pid x l apart) ∙ inside') in
              let (p, found, home) = v.guest lid k x there at in
              (p, rw (entry x, apart) found, home)
        ];
        nowhere_else = λ j m apart there. newcomer_outside pid j m s v n.fresh there;
        index = index;
        unique = unique;
        no_empty = no_empty;
      }

  pub entered-IsValid :
      (pid : BasicId) (player : Player F) (lid : LobbyId) (l : Lobby F) (s : BlasterEventLoop F)
      → lookup lid s.lobbies ≡ some l
      → IsNewcomer pid player lid s
      → IsValid s
      → IsValid (admit pid player lid l s)
  unfolding admit indexed
  entered-IsValid pid player lid l s found n v =
      arrival-IsValid pid player lid l s (admit pid player lid l s) n refl
        (λ j. lookup-insert lid j (enter pid l) s.lobbies)
        (enter-LobbyIsValid pid l (newcomer_outside pid lid l s v n.fresh found)
          (v.rooms lid l found))
        (λ x inside. (l, found, inside)) (λ m there. some_inj (sym there ∙ found))
        (λ gid j.
          v.index gid j ∙ sym (is_some-insert_old lid (lobby_id gid j) l (enter pid l) s found))
        v.unique v.no_empty v

  -- The index after a lobby is added.
  indexed-add_to_index :
      (lid : LobbyId) (gid : GameId) (s : BlasterEventLoop F)
      → indexed gid (add_to_index lid s)
        ≡ (if lid.gid == gid then add lid.lid (indexed lid.gid s) else indexed gid s)
  unfolding indexed add_to_index
  indexed-add_to_index lid gid s =
      ap or_empty (lookup-insert lid.gid gid (add lid.lid (indexed lid.gid s)) s.gid_lobbies)
      ∙ ground arith

  pub contains-indexed_add :
      (lid : LobbyId) (gid : GameId) (j : BasicId) (s : BlasterEventLoop F)
      → contains j (indexed gid (add_to_index lid s))
        ≡ (if lid == lobby_id gid j then true else contains j (indexed gid s))
  contains-indexed_add lid gid j s =
      rw (indexed-add_to_index lid gid s)
        (ground (arith, contains-add lid.lid j (indexed lid.gid s), eq_iff lid.gid gid))

  IsSetList-indexed_add :
      (lid : LobbyId) (gid : GameId) (s : BlasterEventLoop F)
      → ((g : GameId) → IsSetList (indexed g s))
      → IsSetList (indexed gid (add_to_index lid s))
  IsSetList-indexed_add lid gid s unique =
      rw (indexed-add_to_index lid gid s) (elim (Bool-cases (lid.gid == gid)) [
        | inl same ↦ rw same (IsSetList-add lid.lid (indexed lid.gid s) (unique lid.gid))
        | inr other ↦ rw other (unique gid)
      ])

  -- No set of the index is empty after an addition.
  no_empty-add_to_index :
      (lid : LobbyId) (gid : GameId) (s : BlasterEventLoop F)
      → lookup gid s.gid_lobbies ≢ some []
      → lookup gid (add_to_index lid s).gid_lobbies ≢ some []
  unfolding add_to_index contains
  no_empty-add_to_index lid gid s h e =
      elim (lookup-insert_inv lid.gid gid (add lid.lid (indexed lid.gid s)) [] s.gid_lobbies e) [
        | inl (_, none_left) ↦ false≢true (
            sym (ap (contains lid.lid) none_left)
            ∙ contains-add lid.lid lid.lid (indexed lid.gid s)
            ∙ rw (beq_refl lid.lid))
        | inr (_, old) ↦ h old
      ]

  pub indexed-opened :
      (pid : BasicId) (player : Player F) (lid : LobbyId) (l : Lobby F) (gid : GameId)
      (s : BlasterEventLoop F)
      → indexed gid (admit pid player lid l (add_to_index lid (put_lobby lid l s)))
        ≡ indexed gid (add_to_index lid s)
  unfolding admit indexed add_to_index
  indexed-opened pid player lid l gid s = refl

  pub opened-IsValid :
      {top : ℕ} (pid : BasicId) (player : Player F) (lid : LobbyId) (l : Lobby F)
      (s : BlasterEventLoop F)
      → lookup lid s.lobbies ≡ none
      → IsNewRoom top pid l
      → IsNewcomer pid player lid s
      → IsValid s
      → IsValid (admit pid player lid l (add_to_index lid (put_lobby lid l s)))
  unfolding admit add_to_index contains
  opened-IsValid pid player lid l s missing r n v =
      arrival-IsValid pid player lid l s
        (admit pid player lid l (add_to_index lid (put_lobby lid l s))) n refl lobbies
        (enter_new-LobbyIsValid pid l r) (λ x inside. absurd (outside_new x inside))
        (λ m there. absurd (none≢some (sym missing ∙ there))) index
        (λ gid.
          subst IsSetList (sym (indexed-opened pid player lid l gid s))
            (IsSetList-indexed_add lid gid s v.unique))
        (λ gid. no_empty-add_to_index lid gid (put_lobby lid l s) (v.no_empty gid)) v
    where
      lobbies :
          (j : LobbyId)
          → lookup j (insert lid (enter pid l) (insert lid l s.lobbies))
            ≡ (if lid == j then some (enter pid l) else lookup j s.lobbies)
      lobbies j = ground (
        arith,
        lookup-insert lid j (enter pid l) (insert lid l s.lobbies),
        lookup-insert lid j l s.lobbies,
      )

      outside_new : (x : BasicId) → contains x l.players ≡ true → ⊥
      outside_new x inside = cc (ap (contains x) r.players, inside)

      index :
          (gid : GameId) (j : BasicId)
          → contains j (indexed gid (admit pid player lid l (add_to_index lid (put_lobby lid l s))))
            ≡ is_some (lookup (lobby_id gid j) (insert lid (enter pid l) (insert lid l s.lobbies)))
      index gid j =
          ap (contains j) (indexed-opened pid player lid l gid s)
          ∙ contains-indexed_add lid gid j s
          ∙ ground (arith, v.index gid j, lobbies (lobby_id gid j))

-- ===== src/Blaster/Invariant/Local.antt =====
-- A change of one player's entry and of one lobby's keeps a state well-formed, if the two fit.
use nut_blast.Base.{
  IsSetList, ◌≡◌, sym, ◌∙◌, ap, subst, true, false, Option, some, inl, inr, ◌==◌, lookup, contains,
  is_some, Bool-cases, beq→eq, beq_refl, nat_eq, string_eq, if◌then◌else◌, ◌≢◌, [],
}
use nut_blast.Float.{Float}
use nut_blast.Protocol.Basic.{BasicId, GameId, LobbyId, null, lobby_id_eq}
use nut_blast.Blaster.{Lobby, Player}
use nut_blast.Blaster.EventLoop.State.{BlasterEventLoop}
use nut_blast.Blaster.EventLoop.Rooms.{indexed, lobby_id}
use nut_blast.Blaster.Invariant.{LobbyIsValid, Houses, IsValid}

module _ {F : Float} (s t : BlasterEventLoop F) (pid : BasicId) (lid : LobbyId)
    (po : Option (Player F)) (lo : Option (Lobby F)) where
  -- The two entries after the change, and what ties them to each other and to the rest.
  pub record IsLocal : Type 0 where
    pub players : (x : BasicId) → lookup x t.players ≡ (if pid == x then po else lookup x s.players)
    pub lobbies : (j : LobbyId) → lookup j t.lobbies ≡ (if lid == j then lo else lookup j s.lobbies)
    pub named : (pid == null) ≡ false
    pub room : (l : Lobby F) → lo ≡ some l → LobbyIsValid l
    pub home :
        (p : Player F)
        → po ≡ some p
        → (p.lid ≡ lid) × ((l : Lobby F) × (lo ≡ some l) × (contains pid l.players ≡ true))
    pub stays :
        (x : BasicId) (l : Lobby F)
        → (pid == x) ≡ false
        → lookup lid s.lobbies ≡ some l
        → contains x l.players ≡ true
        → (l' : Lobby F) × (lo ≡ some l') × (contains x l'.players ≡ true)
    pub guest :
        (x : BasicId) (l : Lobby F)
        → lo ≡ some l
        → contains x l.players ≡ true
        → (p : Player F) × (lookup x t.players ≡ some p) × (p.lid ≡ lid)
    pub nowhere_else :
        (j : LobbyId) (l : Lobby F)
        → (lid == j) ≡ false
        → lookup j s.lobbies ≡ some l
        → contains pid l.players ≡ false
    pub index :
        (gid : GameId) (j : BasicId)
        → contains j (indexed gid t) ≡ is_some (lookup (lobby_id gid j) t.lobbies)
    pub unique : (gid : GameId) → IsSetList (indexed gid t)
    pub no_empty : (gid : GameId) → lookup gid t.gid_lobbies ≢ some []

module _ {F : Float} {s t : BlasterEventLoop F} {pid : BasicId} {lid : LobbyId}
    {po : Option (Player F)} {lo : Option (Lobby F)} (c : IsLocal s t pid lid po lo) where
  player_here : (x : BasicId) → (pid == x) ≡ true → lookup x t.players ≡ po
  player_here x h = rw (c.players x, h)

  player_apart : (x : BasicId) → (pid == x) ≡ false → lookup x t.players ≡ lookup x s.players
  player_apart x h = rw (c.players x, h)

  lobby_here : (j : LobbyId) → (lid == j) ≡ true → lookup j t.lobbies ≡ lo
  lobby_here j h = rw (c.lobbies j, h)

  lobby_apart : (j : LobbyId) → (lid == j) ≡ false → lookup j t.lobbies ≡ lookup j s.lobbies
  lobby_apart j h = rw (c.lobbies j, h)

  -- Everybody else is housed as before.
  other_home :
      (x : BasicId) (j : LobbyId) → (pid == x) ≡ false → Houses s.lobbies x j → Houses t.lobbies x j
  other_home x j apart (l, there, inside) = elim (Bool-cases (lid == j)) [
    | inl same ↦
        let (l', found, inside') =
          c.stays x l apart (ap (λ k. lookup k s.lobbies) (beq→eq lid j same) ∙ there) inside in
        (l', lobby_here j same ∙ found, inside')
    | inr other ↦ (l, lobby_apart j other ∙ there, inside)
  ]

  own_home : (p : Player F) → po ≡ some p → Houses t.lobbies pid p.lid
  own_home p e =
      let (at, here) = c.home p e in
      let (l, found, inside) = here in (l, lobby_here p.lid (rw at (beq_refl lid)) ∙ found, inside)

  pub IsLocal-IsValid : IsValid s → IsValid t
  IsLocal-IsValid v = record {
    rooms = λ j l h. elim (Bool-cases (lid == j)) [
      | inl same ↦ c.room l (sym (lobby_here j same) ∙ h)
      | inr other ↦ v.rooms j l (sym (lobby_apart j other) ∙ h)
    ];
    home = λ x p h. elim (Bool-cases (pid == x)) [
      | inl same ↦
          subst (λ k. Houses t.lobbies k p.lid) (beq→eq pid x same)
            (own_home p (sym (player_here x same) ∙ h))
      | inr other ↦ other_home x p.lid other (v.home x p (sym (player_apart x other) ∙ h))
    ];
    guest = λ j l x h inside. elim (Bool-cases (lid == j)) [
      | inl same ↦
          let (p, found, at) = c.guest x l (sym (lobby_here j same) ∙ h) inside in
          (p, found, at ∙ beq→eq lid j same)
      | inr other ↦ elim (Bool-cases (pid == x)) [
        | inl here ↦ absurd (
            cc
              (c.nowhere_else j l other (sym (lobby_apart j other) ∙ h), inside, beq→eq pid x here))
        | inr apart ↦
            let (p, found, at) = v.guest j l x (sym (lobby_apart j other) ∙ h) inside in
            (p, player_apart x apart ∙ found, at)
      ]
    ];
    no_null = player_apart null c.named ∙ v.no_null;
    index = c.index;
    unique = c.unique;
    no_empty = c.no_empty;
  }

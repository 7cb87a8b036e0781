-- ===== src/Blaster/Bounds.antt =====
-- The sizes of lobbies and of metadata, and the lobbies per address, of
-- server/src/blaster/eventloop.rs.
pub mod Run
use nut_blast.Base.{
  ℕ, ◌+◌, ◌≤◌, ◌<◌, ◌≡◌, refl, sym, ap, subst, Bool, true, false, Option, none, some, List, [], ◌∷◌,
  arith, ◌==◌, nat_eq, Dict, lookup, insert, erase, filter, length, AllValues, AllValues-insert,
  AllValues-erase, AllValues-lookup, leb, length-add_le, length-remove_le, if◌then◌else◌,
  Bool-cases, inl, inr, ◌∙◌, lookup-insert_self, beq→eq,
}
use nut_blast.Float.{Float}
use nut_blast.Protocol.Basic.{BasicId, GameId, LobbyId, lobby_id_eq}
use nut_blast.Protocol.Metadata.{max_fields}
use nut_blast.Blaster.{IpAddr, Lobby, Player, Env, is_full}
use nut_blast.Blaster.EventLoop.State.{put_lobby, BlasterEventLoop, enter, admit, lobbies_per_ip}
use nut_blast.Blaster.EventLoop.Rooms.{opened_by, host_refusal, leave, add_to_index}
use nut_blast.Blaster.Moves.{
  Move, Moves, peers_written, lobby_written, crowned, player_written, entered, opened, left, closed,
  forgotten, done, more, closed_state, SameRoom, IsNewRoom, IsNewcomer,
}

module _ {F : Float} where
  pub record LobbyFits (top : ℕ) (l : Lobby F) : Type 0 where
    pub capacity : l.capacity ≤ top
    pub players : length l.players ≤ top
    pub metadata : length l.metadata ≤ max_fields

  abbrev pub PlayerFits : Player F → Type 0
  PlayerFits p = length p.metadata ≤ max_fields

  pub record IsBounded (top : ℕ) (s : BlasterEventLoop F) : Type 0 where
    pub lobbies : AllValues (LobbyFits top) s.lobbies
    pub players : AllValues PlayerFits s.players
    pub openers : (ip : IpAddr) → length (opened_by ip s.lobbies) ≤ lobbies_per_ip

  -- How many lobbies an address has, after a write to a lobby, a new lobby, or one less.
  opened_by-insert_old :
      (ip : IpAddr) (lid : LobbyId) (l l' : Lobby F) (d : Dict LobbyId (Lobby F))
      → lookup lid d ≡ some l
      → l'.initiator ≡ l.initiator
      → length (opened_by ip (insert lid l' d)) ≡ length (opened_by ip d)
  unfolding opened_by insert lookup
  opened_by-insert_old ip lid l l' [] h e = absurd (cc)
  opened_by-insert_old ip lid l l' ((j, m) ∷ d) h e =
      ground (arith, opened_by-insert_old ip lid l l' d)

  opened_by-insert_le :
      (ip : IpAddr) (lid : LobbyId) (l : Lobby F) (d : Dict LobbyId (Lobby F))
      → length (opened_by ip (insert lid l d))
        ≤ length (opened_by ip d) + (if l.initiator == ip then 1 else 0)
  unfolding opened_by insert
  opened_by-insert_le ip lid l [] = ground arith
  opened_by-insert_le ip lid l ((j, m) ∷ d) = ground (arith, opened_by-insert_le ip lid l d)

  opened_by-erase_le :
      (ip : IpAddr) (lid : LobbyId) (d : Dict LobbyId (Lobby F))
      → length (opened_by ip (erase lid d)) ≤ length (opened_by ip d)
  unfolding opened_by erase
  opened_by-erase_le ip lid [] = omega arith
  opened_by-erase_le ip lid ((j, m) ∷ d) = ground (arith, opened_by-erase_le ip lid d)

  -- An address that may host has a lobby less than the limit.
  host_refusal-none :
      (ip : IpAddr) (gid : GameId) (listed : Bool) (s : BlasterEventLoop F)
      → host_refusal ip gid listed s ≡ none
      → length (opened_by ip s.lobbies) < lobbies_per_ip
  unfolding host_refusal
  host_refusal-none ip gid listed s h = ground arith

  leave-LobbyFits :
      (env : Env) (top : ℕ) (pid : BasicId) (l : Lobby F)
      → LobbyFits top l
      → LobbyFits top (leave env pid l)
  unfolding leave
  leave-LobbyFits env top pid l f = record {
    capacity = f.capacity;
    players = omega (arith, f.players, length-remove_le pid l.players);
    metadata = f.metadata;
  }

  enter-LobbyFits :
      (top : ℕ) (pid : BasicId) (l : Lobby F)
      → is_full l ≡ false
      → LobbyFits top l
      → LobbyFits top (enter pid l)
  unfolding enter is_full
  enter-LobbyFits top pid l room f = record {
    capacity = f.capacity;
    players = ground (arith, length-add_le pid l.players, f.capacity);
    metadata = f.metadata;
  }

  initiator-enter : (pid : BasicId) (l : Lobby F) → (enter pid l).initiator ≡ l.initiator
  unfolding enter
  initiator-enter pid l = refl

  enter_new-LobbyFits :
      (top : ℕ) (pid : BasicId) (l : Lobby F)
      → 1 ≤ top
      → IsNewRoom top pid l
      → LobbyFits top (enter pid l)
  unfolding enter
  enter_new-LobbyFits top pid l one r = record {
    capacity = r.capacity;
    players =
        omega (arith, length-add_le pid l.players, ap (λ (xs : List BasicId). length xs) r.players);
    metadata = r.metadata;
  }

  -- A lobby that is rewritten, its size and its opener staying.
  put_lobby-IsBounded :
      (top : ℕ) (lid : LobbyId) (l l' : Lobby F) (s : BlasterEventLoop F)
      → lookup lid s.lobbies ≡ some l
      → l'.initiator ≡ l.initiator
      → LobbyFits top l'
      → IsBounded top s
      → IsBounded top (record s { lobbies = insert lid l' s.lobbies })
  put_lobby-IsBounded top lid l l' s found same fits b = record {
    lobbies = AllValues-insert (LobbyFits top) lid l' s.lobbies fits b.lobbies;
    players = b.players;
    openers = λ ip. rw (opened_by-insert_old ip lid l l' s.lobbies found same) (b.openers ip);
  }

  SameRoom-LobbyFits :
      (top : ℕ) (l l' : Lobby F) → SameRoom top l l' → LobbyFits top l → LobbyFits top l'
  SameRoom-LobbyFits top l l' same f = record {
    capacity = same.capacity f.capacity;
    players = rw same.players f.players;
    metadata = same.metadata f.metadata;
  }

  erased :
      {top : ℕ} (pid : BasicId) (s : BlasterEventLoop F)
      → IsBounded top s
      → IsBounded top (record s { players = erase pid s.players })
  erased pid s b = record {
    lobbies = b.lobbies;
    players = AllValues-erase PlayerFits pid s.players b.players;
    openers = b.openers;
  }

  initiator-leave :
      (env : Env) (pid : BasicId) (l : Lobby F) → (leave env pid l).initiator ≡ l.initiator
  unfolding leave
  initiator-leave env pid l = refl

  closed-IsBounded :
      (env : Env) (top : ℕ) (pid : BasicId) (lid : LobbyId) (l : Lobby F) (s : BlasterEventLoop F)
      → lookup lid s.lobbies ≡ some l
      → IsBounded top s
      → IsBounded top (closed_state env pid lid l s)
  closed-IsBounded env top pid lid l s there b = record {
    lobbies = AllValues-erase (LobbyFits top) lid (insert lid (leave env pid l) s.lobbies) (
        AllValues-insert (LobbyFits top) lid (leave env pid l) s.lobbies
          (leave-LobbyFits env top pid l
            (AllValues-lookup (LobbyFits top) lid l s.lobbies b.lobbies there))
          b.lobbies);
    players = AllValues-erase PlayerFits pid s.players b.players;
    openers = λ ip. omega (
      arith,
      b.openers ip,
      opened_by-erase_le ip lid (insert lid (leave env pid l) s.lobbies),
      opened_by-insert_old ip lid l (leave env pid l) s.lobbies there (initiator-leave env pid l),
    );
  }

  entered-IsBounded :
      (top : ℕ) (pid : BasicId) (player : Player F) (lid : LobbyId) (l : Lobby F)
      (s : BlasterEventLoop F)
      → lookup lid s.lobbies ≡ some l
      → is_full l ≡ false
      → IsNewcomer pid player lid s
      → IsBounded top s
      → IsBounded top (admit pid player lid l s)
  unfolding admit
  entered-IsBounded top pid player lid l s found room n b = record {
    lobbies =
        AllValues-insert (LobbyFits top) lid (enter pid l) s.lobbies
          (enter-LobbyFits top pid l room
            (AllValues-lookup (LobbyFits top) lid l s.lobbies b.lobbies found))
          b.lobbies;
    players = AllValues-insert PlayerFits pid player s.players n.metadata b.players;
    openers = λ ip.
        rw (opened_by-insert_old ip lid l (enter pid l) s.lobbies found (initiator-enter pid l))
          (b.openers ip);
  }

  opened-IsBounded :
      (top : ℕ) (pid : BasicId) (player : Player F) (lid : LobbyId) (l : Lobby F)
      (s : BlasterEventLoop F)
      → 1 ≤ top
      → IsNewRoom top pid l
      → host_refusal l.initiator lid.gid l.listed s ≡ none
      → IsNewcomer pid player lid s
      → IsBounded top s
      → IsBounded top (admit pid player lid l (add_to_index lid (put_lobby lid l s)))
  unfolding admit add_to_index
  opened-IsBounded top pid player lid l s one r allowed n b = record {
    lobbies =
        AllValues-insert (LobbyFits top) lid (enter pid l) (insert lid l s.lobbies)
          (enter_new-LobbyFits top pid l one r)
          (AllValues-insert (LobbyFits top) lid l s.lobbies
            (record {
              capacity = r.capacity;
              players = rw r.players (omega arith);
              metadata = r.metadata;
            })
            b.lobbies);
    players = AllValues-insert PlayerFits pid player s.players n.metadata b.players;
    openers = λ ip.
        let same =
          opened_by-insert_old ip lid l (enter pid l) (insert lid l s.lobbies)
            (lookup-insert_self lid l s.lobbies) (initiator-enter pid l) in
        let grown = opened_by-insert_le ip lid l s.lobbies in
        let few = host_refusal-none l.initiator lid.gid l.listed s allowed in
        elim (Bool-cases (l.initiator == ip)) [
          | inl own ↦
              let few' =
                subst (λ k. length (opened_by k s.lobbies) < lobbies_per_ip)
                  (beq→eq l.initiator ip own) few in
              omega (arith, same, rw own at grown, few')
          | inr other ↦ omega (arith, same, rw other at grown, b.openers ip)
        ];
  }

  Move-IsBounded :
      {env : Env} {top : ℕ} {s t : BlasterEventLoop F}
      → 1 ≤ top
      → Move env top s t
      → IsBounded top s
      → IsBounded top t
  Move-IsBounded one (peers_written peers e) b =
      rw e (record { lobbies = b.lobbies; players = b.players; openers = b.openers })
  Move-IsBounded {top} {s} one (lobby_written lid l l' found same master e) b = rw e (
      put_lobby-IsBounded top lid l l' s found same.initiator
        (SameRoom-LobbyFits top l l' same
          (AllValues-lookup (LobbyFits top) lid l s.lobbies b.lobbies found))
        b)
  Move-IsBounded {top} {s} one (crowned lid l l' p found same there at e) b = rw e (
      put_lobby-IsBounded top lid l l' s found same.initiator
        (SameRoom-LobbyFits top l l' same
          (AllValues-lookup (LobbyFits top) lid l s.lobbies b.lobbies found))
        b)
  Move-IsBounded {s} one (player_written pid p p' found same small e) b = rw e (record {
    lobbies = b.lobbies;
    players =
        AllValues-insert PlayerFits pid p' s.players
          (small (AllValues-lookup PlayerFits pid p s.players b.players found)) b.players;
    openers = b.openers;
  })
  Move-IsBounded {top} {s} one (entered pid player lid l found room n e) b =
      rw e (entered-IsBounded top pid player lid l s found room n b)
  Move-IsBounded {top} {s} one (opened pid player lid l missing r allowed n e) b =
      rw e (opened-IsBounded top pid player lid l s one r allowed n b)
  Move-IsBounded {env} {top} {s} one (left pid p l found there named e) b = rw e (
      put_lobby-IsBounded top p.lid l (leave env pid l) (record s { players = erase pid s.players })
        there (initiator-leave env pid l)
        (leave-LobbyFits env top pid l
          (AllValues-lookup (LobbyFits top) p.lid l s.lobbies b.lobbies there))
        (erased pid s b))
  Move-IsBounded {env} {top} {s} one (closed pid p l found there nulled e) b =
      rw e (closed-IsBounded env top pid p.lid l s there b)
  Move-IsBounded {s} one (forgotten pid p found gone e) b = rw e (erased pid s b)

  pub Moves-IsBounded :
      {env : Env} {top : ℕ} {s t : BlasterEventLoop F}
      → 1 ≤ top
      → Moves env top s t
      → IsBounded top s
      → IsBounded top t
  Moves-IsBounded one done b = b
  Moves-IsBounded one (more ms m) b = Move-IsBounded one m (Moves-IsBounded one ms b)

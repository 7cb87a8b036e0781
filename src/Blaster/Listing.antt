-- ===== src/Blaster/Listing.antt =====
-- What a client that asks for a game's lobbies is shown, `ListLobbies` of
-- server/src/blaster/eventloop.rs.
use mathlib.Core.List.{Memᴰ}
use nut_blast.Base.{
  ℕ, ◌≤◌, ◌<◌, ◌≡◌, ◌⊎◌, refl, sym, ◌∙◌, ap, subst, true, some, List, ok, err, length, lookup,
  contains, filter_map, take, arith, nat_eq, string_eq, Bool-cases, Option-cases, inl, inr,
  some_inj, none≢some, is_some, Mem-filter_map, Mem-filter_map_inv, Mem-take_inv, take_all,
  length-take, not, ◌&&◌, ltb,
}
use nut_blast.Float.{Float}
use nut_blast.Protocol.Basic.{BasicId, GameId, lobby_id_eq}
use nut_blast.Protocol.Metadata.{truncated}
use nut_blast.Protocol.Payloads.{LobbyListing}
use nut_blast.Blaster.{IpAddr, Lobby, Env, is_full}
use nut_blast.Blaster.EventLoop.State.{BlasterEventLoop, cap_ip, sessions_per_ip_error}
use nut_blast.Blaster.EventLoop.Rooms.{list_lobbies, listing_of, clamp_limit, lobby_id, indexed}
use nut_blast.Blaster.Invariant.{IsValid, IsWalk}
use nut_blast.Blaster.Moves.Rooms.{cap_ip-peers}
use nut_blast.Blaster.Metering.{IsMetered, IsHeldBack, IsLetIn, cap_ip-IsMetered}

clamp_limit_le :
    (limit : ℕ) → (clamp_limit limit ≤ 32) × ((clamp_limit limit ≤ limit) ⊎ (clamp_limit limit ≤ 1))
unfolding clamp_limit
clamp_limit_le limit = elim (Bool-cases (ltb limit 1)) [
  | inl zero_asked ↦ rw zero_asked (omega arith, inr (omega arith))
  | inr asked ↦ rw asked (ground arith, inl (ground arith))
]

-- Short of 32 and of the limit, or empty, is short of what is taken.
lt_clamp_limit : (limit n : ℕ) → n < 32 → (n < limit) ⊎ (n ≡ 0) → n < clamp_limit limit
unfolding clamp_limit
lt_clamp_limit limit n h k = ground arith

module _ {F : Float} where
  -- The entry shows a listed lobby of the game that has room, as it is.
  pub record Shows (s : BlasterEventLoop F) (gid : GameId) (x : LobbyListing) : Type 0 where
    pub lobby : Lobby F
    pub there : lookup (lobby_id gid x.lid) s.lobbies ≡ some lobby
    pub listed : lobby.listed ≡ true
    pub room : length lobby.players < lobby.capacity
    pub players : x.players ≡ length lobby.players
    pub max : x.max ≡ lobby.capacity
    pub metadata : x.metadata ≡ truncated lobby.metadata

  -- The entries are few, each shows a lobby, and no lobby that is to be shown is left out unless
  -- the list is as long as it may be.
  pub record IsListing (s : BlasterEventLoop F) (gid : GameId) (limit : ℕ) (xs : List LobbyListing)
      : Type 0 where
    pub few : (length xs ≤ 32) × ((length xs ≤ limit) ⊎ (length xs ≤ 1))
    pub sound : (x : LobbyListing) → Memᴰ x xs → Shows s gid x
    pub complete :
        length xs < 32
        → ((length xs < limit) ⊎ (length xs ≡ 0))
        → (lid : BasicId) (l : Lobby F) → lookup (lobby_id gid lid) s.lobbies ≡ some l
        → l.listed ≡ true
        → length l.players < l.capacity
        → (x : LobbyListing) × (x.lid ≡ lid) × Memᴰ x xs

  listing_of_inv :
      (s : BlasterEventLoop F) (gid : GameId) (lid : BasicId) (x : LobbyListing)
      → listing_of s gid lid ≡ some x
      → Shows s gid x
  unfolding listing_of is_full
  listing_of_inv s gid lid x e = elim (Option-cases (lookup (lobby_id gid lid) s.lobbies)) [
    | inl gone ↦ absurd (none≢some (rw (gone, listing_of) at e))
    | inr (l, there) ↦ elim (Bool-cases (l.listed && not (is_full l))) [
      | inr hidden ↦ absurd (none≢some (rw (there, hidden, listing_of) at e))
      | inl public ↦
          let same : record {
            lid = lid;
            players = length l.players;
            max = l.capacity;
            metadata = truncated l.metadata;
          }
              ≡ x =
            some_inj (rw (there, public, listing_of) at e) in
          subst (Shows s gid) same (record {
            lobby = l;
            there = there;
            listed = ground (arith, public);
            room = ground (arith, public);
            players = refl;
            max = refl;
            metadata = refl;
          })
    ]
  ]

  listing_of_open :
      (s : BlasterEventLoop F) (gid : GameId) (lid : BasicId) (l : Lobby F)
      → lookup (lobby_id gid lid) s.lobbies ≡ some l
      → l.listed ≡ true
      → length l.players < l.capacity
      → (x : LobbyListing) × (x.lid ≡ lid) × (listing_of s gid lid ≡ some x)
  unfolding listing_of is_full
  listing_of_open s gid lid l there listed room = (
    record {
      lid = lid;
      players = length l.players;
      max = l.capacity;
      metadata = truncated l.metadata;
    },
    refl,
    ground (arith, there, listed, room),
  )

  -- What is listed where the address is not held back.
  shown : Env → GameId → ℕ → BlasterEventLoop F → List LobbyListing
  shown env gid limit s =
      take (clamp_limit limit) (filter_map (listing_of s gid) (env.iter (indexed gid s)))

  shown-IsListing :
      (env : Env) (gid : GameId) (limit : ℕ) (s : BlasterEventLoop F)
      → IsWalk env
      → IsValid s
      → IsListing s gid limit (shown env gid limit s)
  unfolding shown
  shown-IsListing env gid limit s walk v =
      let all = filter_map (listing_of s gid) (env.iter (indexed gid s)) in
      record {
        few =
            let cut = length-take (clamp_limit limit) all in
            let (top, wished) = clamp_limit_le limit in
            (
              omega (arith, cut, top),
              elim wished [
                | inl h ↦ inl (omega (arith, cut, h))
                | inr h ↦ inr (omega (arith, cut, h))
              ],
            );
        sound = λ x m.
            let (lid, e) =
              Mem-filter_map_inv (listing_of s gid) (env.iter (indexed gid s)) x
                (Mem-take_inv (clamp_limit limit) all x m) in
            listing_of_inv s gid lid x e;
        complete = λ below asked lid l there listed room.
            let (x, named, e) = listing_of_open s gid lid l there listed room in
            let inside : contains lid (env.iter (indexed gid s)) ≡ true =
              walk.meets lid (indexed gid s) ∙ v.index gid lid ∙ ap is_some there in
            let m = Mem-filter_map (listing_of s gid) (env.iter (indexed gid s)) lid x inside e in
            let whole : take (clamp_limit limit) all ≡ all = take_all (clamp_limit limit) all (
              omega
                (arith, lt_clamp_limit limit _ below asked, length-take (clamp_limit limit) all)) in
            (x, named, subst (Memᴰ x) (sym whole) m);
      }

  -- A listing is refused, with that reason, just when the address is unknown or has no token left. In
  -- a well-formed state it is otherwise at most 32 entries, and no more than were asked for (one, where
  -- none were), each of a listed lobby of the game with room, as it stands; and short of that it has
  -- every such lobby. Either way a token was asked for of the address, and nothing else changes. The
  -- walk over a hash set is supposed to meet the elements.
  pub list_lobbies-IsListing :
      (env : Env) (ip : IpAddr) (gid : GameId) (limit : ℕ) (s : BlasterEventLoop F)
      → IsWalk env
      → IsValid s
      → let (t, r) = list_lobbies env ip gid limit s in
        IsMetered ip (env.now 0) s t
        × ((IsHeldBack ip (env.now 0) s × (r ≡ err sessions_per_ip_error))
            ⊎ (IsLetIn ip (env.now 0) s
                × (xs : List LobbyListing) × (r ≡ ok xs)
                × IsListing s gid limit xs))
  unfolding list_lobbies shown indexed listing_of
  list_lobbies-IsListing env ip gid limit s walk v =
      let (metered, verdict) = cap_ip-IsMetered ip (env.now 0) s in
      let s₁ = (cap_ip ip (env.now 0) s).0 in
      (
        metered,
        elim verdict [
          | inl (held, spent) ↦ inl (held, ground (arith, spent))
          | inr (let_in, paid) ↦ inr (
            let_in,
            shown env gid limit s,
            rw (list_lobbies, paid)
                (ap (λ t. ok (shown env gid limit t)) (cap_ip-peers ip (env.now 0) s)),
            shown-IsListing env gid limit s walk v,
          )
        ],
      )

-- ===== src/Blaster/Joining/Limits.antt =====
-- The limits that a new lobby is held to, counted apart from the code; `HostLobby` of
-- server/src/blaster/eventloop.rs.
use nut_blast.Base.{
  ℕ, ◌≡◌, ◌⊎◌, ◌≤◌, ◌<◌, refl, sym, ◌∙◌, ap, Bool, true, false, none, some, List, [], ◌∷◌, lookup,
  contains, length, nat_eq, string_eq, Bool-cases, Option-cases, inl, inr, none≢some, some_inj,
  arith, any, leb, ◌&&◌, ◌||◌, &&-true, ◌==◌, if◌then◌else◌, Dict, tally, filter, filter_map,
  filter_map_skips, filter_map_takes, IsSetList, IsSetList-filter, contains-filter,
  contains-filter_inv, length_le_of_part, is_some,
}
use nut_blast.Float.{Float}
use nut_blast.Protocol.Basic.{BasicId, GameId, LobbyId, lobby_id_eq}
use nut_blast.Protocol.Payloads.{Kick}
use nut_blast.Blaster.{IpAddr, Lobby}
use nut_blast.Blaster.EventLoop.State.{BlasterEventLoop}
use nut_blast.Blaster.EventLoop.Rooms.{
  lobby_id, host_refusal, ip_limit, gid_limit, opened_by, listed_count, indexed,
}
use nut_blast.Blaster.Invariant.{IsValid}

module _ {F : Float} where
  abbrev pub is_own : IpAddr → Lobby F → ℕ
  is_own ip l = if l.initiator == ip then 1 else 0

  abbrev pub is_own_listed : IpAddr → Lobby F → ℕ
  is_own_listed ip l = if l.listed && (l.initiator == ip) then 1 else 0

  -- The lobby of the game is there and listed.
  abbrev pub IsListed : BlasterEventLoop F → GameId → BasicId → Type 0
  IsListed s gid lid =
      (l : Lobby F) × (lookup (lobby_id gid lid) s.lobbies ≡ some l) × (l.listed ≡ true)

  -- The ids are different, and each is that of a listed lobby of the game.
  abbrev pub AreListed : BlasterEventLoop F → GameId → List BasicId → Type 0
  AreListed s gid ids = IsSetList ids × ((x : BasicId) → contains x ids ≡ true → IsListed s gid x)

  -- The address has opened fewer than four lobbies, and, where the new one is to be listed, none that
  -- is, and there are fewer than 32 listed lobbies of the game.
  pub record IsWithinLimits (ip : IpAddr) (gid : GameId) (public : Bool) (s : BlasterEventLoop F)
      : Type 0 where
    pub few : tally (is_own ip) s.lobbies < 4
    pub none_listed : public ≡ true → tally (is_own_listed ip) s.lobbies ≡ 0
    pub few_listed : public ≡ true → (ids : List BasicId) → AreListed s gid ids → length ids < 32

  -- The address has opened four lobbies, or would have a second one that is listed; or 32 lobbies of
  -- the game are listed, and the new one is to be.
  abbrev pub IsOverLimit : IpAddr → GameId → Bool → BlasterEventLoop F → Kick → Type 0
  IsOverLimit ip gid public s reason =
      ((reason ≡ ip_limit)
        × ((4 ≤ tally (is_own ip) s.lobbies)
            ⊎ (public ≡ true) × (1 ≤ tally (is_own_listed ip) s.lobbies)))
      ⊎ (reason ≡ gid_limit)
        × (public ≡ true)
        × (ids : List BasicId) × AreListed s gid ids
        × (32 ≤ length ids)

  length-opened_by :
      (ip : IpAddr) (d : Dict LobbyId (Lobby F)) → length (opened_by ip d) ≡ tally (is_own ip) d
  unfolding opened_by tally
  length-opened_by ip [] = refl
  length-opened_by ip ((k, l) ∷ d) = ground (arith, length-opened_by ip d)

  any-opened_by :
      (ip : IpAddr) (d : Dict LobbyId (Lobby F))
      → any (λ (e : LobbyId × Lobby F). e.1.listed) (opened_by ip d)
        ≡ leb 1 (tally (is_own_listed ip) d)
  unfolding opened_by tally
  any-opened_by ip [] = refl
  any-opened_by ip ((k, l) ∷ d) = ground (arith, any-opened_by ip d)

  is_listed : BlasterEventLoop F → GameId → BasicId → Bool
  is_listed s gid lid = elim (lookup (lobby_id gid lid) s.lobbies) [
    | none ↦ false
    | some l ↦ l.listed
  ]

  listed_ids : BlasterEventLoop F → GameId → List BasicId
  listed_ids s gid = filter (is_listed s gid) (indexed gid s)

  length_of_listed :
      (s : BlasterEventLoop F) (gid : GameId) (ids : List BasicId)
      → length (
          filter
            (λ (l : Lobby F). l.listed)
            (filter_map (λ id. lookup (lobby_id gid id) s.lobbies) ids))
        ≡ length (filter (is_listed s gid) ids)
  unfolding is_listed
  length_of_listed s gid [] = refl
  length_of_listed s gid (x ∷ xs) =
      let found = λ (id : BasicId). lookup (lobby_id gid id) s.lobbies in
      let listed_of : List (Lobby F) → ℕ = λ ls. length (filter (λ (l : Lobby F). l.listed) ls) in
      let rest = length_of_listed s gid xs in
      elim (Option-cases (lookup (lobby_id gid x) s.lobbies)) [
        | inl missing ↦
            let off : is_listed s gid x ≡ false = rw (is_listed, missing) refl in
            ap listed_of (filter_map_skips found x xs missing) ∙ rw off rest
        | inr (l, there) ↦
            let same : is_listed s gid x ≡ l.listed = rw (is_listed, there) refl in
            ap listed_of (filter_map_takes found x l xs there) ∙ rw same (ground (arith, rest))
      ]

  listed_count_lem :
      (s : BlasterEventLoop F) (gid : GameId) → listed_count gid s ≡ length (listed_ids s gid)
  unfolding listed_count listed_ids
  listed_count_lem s gid = length_of_listed s gid (indexed gid s)

  IsListed-of_test :
      (s : BlasterEventLoop F) (gid : GameId) (lid : BasicId)
      → is_listed s gid lid ≡ true
      → IsListed s gid lid
  unfolding is_listed
  IsListed-of_test s gid lid h = elim (Option-cases (lookup (lobby_id gid lid) s.lobbies)) [
    | inl missing ↦ absurd (ground (arith, h, missing))
    | inr (l, there) ↦ (l, there, ground (arith, h, there))
  ]

  listed_ids-AreListed :
      (s : BlasterEventLoop F) (gid : GameId) → IsValid s → AreListed s gid (listed_ids s gid)
  unfolding listed_ids
  listed_ids-AreListed s gid v = (
    IsSetList-filter (is_listed s gid) (indexed gid s) (v.unique gid),
    λ x m. IsListed-of_test s gid x (contains-filter_inv (is_listed s gid) x (indexed gid s) m).0,
  )

  -- No list of listed lobbies is longer.
  length-AreListed_le :
      (s : BlasterEventLoop F) (gid : GameId) (ids : List BasicId)
      → IsValid s
      → AreListed s gid ids
      → length ids ≤ length (listed_ids s gid)
  unfolding listed_ids is_listed
  length-AreListed_le s gid ids v (set, listed) =
      length_le_of_part ids (filter (is_listed s gid) (indexed gid s)) set (λ x m.
        let (l, there, on) = listed x m in
        contains-filter (is_listed s gid) x (indexed gid s) (rw (is_listed, there) on)
          (v.index gid x ∙ ap is_some there))

  pub refused-IsOverLimit :
      (ip : IpAddr) (gid : GameId) (public : Bool) (s : BlasterEventLoop F) (reason : Kick)
      → IsValid s
      → host_refusal ip gid public s ≡ some reason
      → IsOverLimit ip gid public s reason
  unfolding host_refusal
  refused-IsOverLimit ip gid public s reason v e =
      let own = opened_by ip s.lobbies in
      let twice = public && any (λ (e : LobbyId × Lobby F). e.1.listed) own in
      elim (Bool-cases (twice || leb 4 (length own))) [
        | inl own_limit ↦ inl (
          some_inj (sym e ∙ rw (host_refusal, own_limit) refl),
          elim (Bool-cases twice) [
            | inl second ↦
                let (on, listed) = &&-true public _ second in
                inr (on, ground (arith, listed, any-opened_by ip s.lobbies))
            | inr first ↦ inl (ground (arith, first, own_limit, length-opened_by ip s.lobbies))
          ],
        )
        | inr within ↦ elim (Bool-cases (public && leb 32 (listed_count gid s))) [
          | inl full ↦ inr (
            some_inj (sym e ∙ rw (host_refusal, within) (rw full refl)),
            ground (arith, full),
            listed_ids s gid,
            listed_ids-AreListed s gid v,
            ground (arith, full, listed_count_lem s gid),
          )
          | inr room ↦ absurd (none≢some (sym (rw (host_refusal, within) (rw room refl)) ∙ e))
        ]
      ]

  pub accepted-IsWithinLimits :
      (ip : IpAddr) (gid : GameId) (public : Bool) (s : BlasterEventLoop F)
      → IsValid s
      → host_refusal ip gid public s ≡ none
      → IsWithinLimits ip gid public s
  unfolding host_refusal
  accepted-IsWithinLimits ip gid public s v e = record {
    few = ground (arith, e, length-opened_by ip s.lobbies);
    none_listed = λ on. ground (arith, on, e, any-opened_by ip s.lobbies);
    few_listed = λ on ids listed.
        ground (arith, on, e, listed_count_lem s gid, length-AreListed_le s gid ids v listed);
  }

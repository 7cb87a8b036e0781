-- ===== src/Blaster/Joining.antt =====
-- A newcomer and the lobby are introduced to each other, `insert_player` of
-- server/src/blaster/eventloop.rs.
pub mod Laws
pub mod Limits
pub mod Host
use mathlib.Core.List.{Memᴰ}
use mathlib.Core.List.Memᴰ
use nut_blast.Base.{
  ℕ, ◌≡◌, ◌≢◌, refl, sym, ◌∙◌, ap, subst, true, false, none, some, List, [], ◌∷◌, ◌++◌, map, lookup,
  contains, length, ◌<◌, ◌≤◌, ◌==◌, ◌||◌, nat_eq, string_eq, Bool-cases, Option-cases, inl, inr,
  Dict, beq→eq, beq_refl, none≢some, some_inj, arith, append_assoc, Mem-append_left,
  Mem-append_right, Mem-map, String,
}
use nut_blast.Float.{Float}
use nut_blast.Protocol.Basic.{BasicId, LobbyId, lobby_id_eq}
use nut_blast.Protocol.Payloads.{ServerMessage}
use nut_blast.Blaster.{Lobby, Player, Env, Sent, send}
use nut_blast.Blaster.EventLoop.State.{BlasterEventLoop, welcome, introduce, introduce_all}
use nut_blast.Blaster.Rights.Isolation.{GoesTo, AllGoTo, AllGoTo-append}
use nut_blast.Blaster.Invariant.{IsValid, IsWalk}

module _ {F : Float} where
  -- What is sent when the player enters the lobby, `l` before it: the newcomer is told of the lobby
  -- and each member of the newcomer and the other way round; the master comes last; and nobody
  -- outside the lobby hears of it.
  pub record IsWelcome (pid : BasicId) (player : Player F) (l : Lobby F) (s : BlasterEventLoop F)
      (sent : List Sent) : Type 0 where
    pub listed : Memᴰ (send player (ServerMessage.set_listed l.listed)) sent
    pub capacity : Memᴰ (send player (ServerMessage.set_capacity l.capacity)) sent
    pub metadata :
        (e : String × String)
        → Memᴰ e l.metadata
        → Memᴰ (send player (ServerMessage.set_lobby_meta e.0 e.1)) sent
    pub connected :
        Memᴰ
          (send player
            (ServerMessage.connected pid player.lid.lid player.birth s.config.ice_servers))
          sent
    pub introduced :
        (x : BasicId) (other : Player F)
        → contains x l.players ≡ true
        → lookup x s.players ≡ some other
        → Memᴰ (send player (ServerMessage.joined x other.metadata other.birth)) sent
          × Memᴰ (send other (ServerMessage.joined pid player.metadata player.birth)) sent
    pub master_last :
        (before : List Sent) × (sent
          ≡ before ++ send player (ServerMessage.set_master l.master) ∷ [])
    pub discreet : AllGoTo s.players player.lid sent

  introduce_all-tells :
      (player : Player F) (pid : BasicId) (players : Dict BasicId (Player F)) (ids : List BasicId)
      (x : BasicId) (other : Player F)
      → contains x ids ≡ true
      → lookup x players ≡ some other
      → Memᴰ
          (send player (ServerMessage.joined x other.metadata other.birth))
          (introduce_all player pid players ids)
        × Memᴰ
            (send other (ServerMessage.joined pid player.metadata player.birth))
            (introduce_all player pid players ids)
  unfolding contains introduce
  introduce_all-tells player pid players [] x other inside there = absurd (cc)
  introduce_all-tells player pid players (id ∷ ids) x other inside there =
      elim (Bool-cases (id == x)) [
        | inl here ↦
            let both =
              send player (ServerMessage.joined x other.metadata other.birth)
              ∷ send other (ServerMessage.joined pid player.metadata player.birth)
              ∷ [] in
            let e : introduce player pid players id ≡ both =
              subst (λ i. introduce player pid players i ≡ both) (sym (beq→eq id x here))
                (rw (introduce, there) refl) in
            rw e (Memᴰ.head refl, Memᴰ.tail (Memᴰ.head refl))
        | inr apart ↦
            let (a, b) =
              introduce_all-tells player pid players ids x other (ground (arith, inside, apart))
                there in
            (
              Mem-append_right _ (introduce player pid players id) _ a,
              Mem-append_right _ (introduce player pid players id) _ b,
            )
      ]

  introduce_all-AllGoTo :
      (player : Player F) (pid : BasicId) (players : Dict BasicId (Player F)) (ids : List BasicId)
      (lid : LobbyId)
      → lookup pid players ≡ some player
      → player.lid ≡ lid
      → ((x : BasicId) (q : Player F)
          → contains x ids ≡ true
          → lookup x players ≡ some q
          → q.lid ≡ lid)
      → AllGoTo players lid (introduce_all player pid players ids)
  unfolding contains introduce send
  introduce_all-AllGoTo player pid players [] lid found home h = tt
  introduce_all-AllGoTo player pid players (id ∷ ids) lid found home h =
      AllGoTo-append players lid (introduce player pid players id) _
        (elim (Option-cases (lookup id players)) [
          | inl gone ↦ rw (introduce, gone) tt
          | inr (q, there) ↦
              rw (introduce, there)
                (
                  (pid, player, found, home, refl),
                  ((id, q, there, h id q (ground (arith, beq_refl id)) there, refl), tt),
                )
        ])
        (introduce_all-AllGoTo player pid players ids lid found home
          (λ x q inside. h x q (ground arith)))

  -- Messages to one player.
  map-AllGoTo :
      (players : Dict BasicId (Player F)) (lid : LobbyId) (pid : BasicId) (q : Player F)
      (msg : String × String → ServerMessage) (xs : List (String × String))
      → lookup pid players ≡ some q
      → q.lid ≡ lid
      → AllGoTo players lid (map (λ e. send q (msg e)) xs)
  unfolding send
  map-AllGoTo players lid pid q msg [] found home = tt
  map-AllGoTo players lid pid q msg (x ∷ xs) found home =
      ((pid, q, found, home, refl), map-AllGoTo players lid pid q msg xs found home)

  pub welcome-IsWelcome :
      (env : Env) (player : Player F) (pid : BasicId) (l : Lobby F) (s : BlasterEventLoop F)
      → IsWalk env
      → lookup pid s.players ≡ some player
      → ((x : BasicId) (q : Player F)
          → contains x l.players ≡ true
          → lookup x s.players ≡ some q
          → q.lid ≡ player.lid)
      → IsWelcome pid player l s (welcome env player pid l s)
  unfolding welcome send
  welcome-IsWelcome env player pid l s walk found members =
      let entries : List Sent =
        map (λ e. send player (ServerMessage.set_lobby_meta e.0 e.1)) l.metadata in
      let told : List Sent = introduce_all player pid s.players (env.iter l.players) in
      let last : List Sent = send player (ServerMessage.set_master l.master) ∷ [] in
      let hello : List Sent =
        send player (ServerMessage.set_listed l.listed)
        ∷ send player (ServerMessage.set_capacity l.capacity)
        ∷ entries in
      let link : Sent =
        send player
          (ServerMessage.connected pid player.lid.lid player.birth s.config.ice_servers) in
      record {
        listed = Memᴰ.head refl;
        capacity = Memᴰ.tail (Memᴰ.head refl);
        metadata = λ e m. Memᴰ.tail (
            Memᴰ.tail (
              Mem-append_left _ entries _ (
                Mem-map (λ e. send player (ServerMessage.set_lobby_meta e.0 e.1)) l.metadata e m)));
        connected = Mem-append_right _ hello _ (Memᴰ.head refl);
        introduced = λ x other inside there.
            let (a, b) =
              introduce_all-tells player pid s.players (env.iter l.players) x other
                (walk.meets x l.players ∙ inside) there in
            (
              Mem-append_right _ hello _ (Memᴰ.tail (Mem-append_left _ told last a)),
              Mem-append_right _ hello _ (Memᴰ.tail (Mem-append_left _ told last b)),
            );
        master_last = (hello ++ link ∷ told, sym (append_assoc hello (link ∷ told) last));
        discreet =
            AllGoTo-append s.players player.lid hello _
              (
                (pid, player, found, refl, refl),
                (
                  (pid, player, found, refl, refl),
                  map-AllGoTo s.players player.lid pid player
                      (λ e. ServerMessage.set_lobby_meta e.0 e.1) l.metadata found refl,
                ),
              )
              (
                (pid, player, found, refl, refl),
                AllGoTo-append s.players player.lid told last
                    (introduce_all-AllGoTo player pid s.players (env.iter l.players) player.lid
                      found refl
                      (λ x q inside. members x q (sym (walk.meets x l.players) ∙ inside)))
                    ((pid, player, found, refl, refl), tt),
              );
      }

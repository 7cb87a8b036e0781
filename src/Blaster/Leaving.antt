-- ===== src/Blaster/Leaving.antt =====
-- A player goes, `RemovePlayer` of server/src/blaster/eventloop.rs.
use nut_blast.Base.{
  ap, subst, some_inj, lookup-erase_inv, length, ltb, Mem-append_left, Mem-append_right, ◌++◌, ◌≡◌,
  ◌≢◌, ◌⊎◌, refl, sym, ◌∙◌, true, false, none, some, List, [], ◌∷◌, lookup, insert, erase, contains,
  lookup-erase, lookup-erase_ne, lookup-insert_ne, lookup-insert_self, arith, nat_eq, string_eq,
  ◌==◌, Bool-cases, beq→eq, beq_refl, beq_false_of_ne, inl, inr, if◌then◌else◌,
}
use nut_blast.Float.{Float}
use nut_blast.Protocol.Basic.{BasicId, LobbyId, null, is_null, lobby_id_eq}
use nut_blast.Protocol.Payloads.{Kick, ServerMessage}
use nut_blast.Blaster.{Instant, Lobby, Player, Env, Sent, send}
use nut_blast.Blaster.EventLoop.State.{BlasterEventLoop, put_lobby, send_to_lobby}
use nut_blast.Blaster.Altering.{AllTold, send_to_lobby-AllTold}
use nut_blast.Blaster.EventLoop.Rooms.{remove_player, leave, remove_from_index}
use nut_blast.Blaster.Invariant.{LobbyIsValid, IsValid, IsWalk}
use nut_blast.Blaster.Invariant.Departures.{leave_master, contains-leave, nobody_stays}

module _ {F : Float} where
  -- The lobby `l'` is `l` without the player: the master is the old one, if that stays, and else one of
  -- those who stay; an idle lobby stays idle, and one that has fewer than two players now becomes so.
  pub record IsLeft (now : Instant) (pid : BasicId) (l l' : Lobby F) : Type 0 where
    pub members :
        (x : BasicId) → contains x l'.players ≡ (if pid == x then false else contains x l.players)
    pub master : contains l'.master l'.players ≡ true
    pub old_master : l.master ≢ pid → l'.master ≡ l.master
    pub still_idle : (since : Instant) → l.idle_since ≡ some since → l'.idle_since ≡ some since
    pub now_idle :
        l.idle_since ≡ none → l'.idle_since ≡ (if ltb (length l'.players) 2 then some now else none)
    pub initiator : l'.initiator ≡ l.initiator
    pub metadata : l'.metadata ≡ l.metadata
    pub capacity : l'.capacity ≡ l.capacity
    pub listed : l'.listed ≡ l.listed
    pub created_at : l'.created_at ≡ l.created_at
    pub alterations_budget : l'.alterations_budget ≡ l.alterations_budget
    pub metadata_budget : l'.metadata_budget ≡ l.metadata_budget

  -- The lobby `l` of a player that goes is closed, the player having been alone in it, and only the
  -- player hears of it; or it goes on without the player, and those who stay are told who has left and
  -- who is the master.
  abbrev pub Vacated :
      Instant → BasicId → Player F → Lobby F → Kick → BlasterEventLoop F → List Sent → Type 0
  Vacated now pid p l reason t sent =
      ((lookup p.lid t.lobbies ≡ none)
        × ((x : BasicId) → contains x l.players ≡ true → x ≡ pid)
        × (sent ≡ send p (ServerMessage.disconnected reason) ∷ []))
      ⊎ ((l' : Lobby F) × (rest : List Sent) × (lookup p.lid t.lobbies ≡ some l')
          × IsLeft now pid l l'
          × (sent ≡ send p (ServerMessage.disconnected reason) ∷ rest)
          × AllTold p.lid (ServerMessage.left pid reason) t rest
          × AllTold p.lid (ServerMessage.set_master l'.master) t rest)

  pub record IsRemoved (now : Instant) (pid : BasicId) (p : Player F) (l : Lobby F) (reason : Kick)
      (s : BlasterEventLoop F) (r : BlasterEventLoop F × List Sent) : Type 0 where
    pub peers : r.0.peers ≡ s.peers
    pub config : r.0.config ≡ s.config
    pub gone : lookup pid r.0.players ≡ none
    pub others : (x : BasicId) → x ≢ pid → lookup x r.0.players ≡ lookup x s.players
    pub elsewhere : (lid : LobbyId) → lid ≢ p.lid → lookup lid r.0.lobbies ≡ lookup lid s.lobbies
    pub vacated : Vacated now pid p l reason r.0 r.1

  leave-IsLeft :
      (env : Env) (pid : BasicId) (l : Lobby F)
      → IsWalk env
      → LobbyIsValid l
      → (leave env pid l).master ≢ null
      → IsLeft (env.now 0) pid l (leave env pid l)
  unfolding leave
  leave-IsLeft env pid l walk v named = record {
    members = λ x. contains-leave env walk pid x l;
    master = leave_master env walk pid l v named;
    old_master = λ other. rw (beq_false_of_ne pid l.master (λ e. other (sym e))) refl;
    still_idle = λ since e. rw e refl;
    now_idle = λ e. rw e refl;
    initiator = refl;
    metadata = refl;
    capacity = refl;
    listed = refl;
    created_at = refl;
    alterations_budget = refl;
    metadata_budget = refl;
  }

  module _ (env : Env) (walk : IsWalk env) (pid : BasicId) (p : Player F) (l : Lobby F)
      (s : BlasterEventLoop F) (v : IsValid s) (found : lookup pid s.players ≡ some p)
      (there : lookup p.lid s.lobbies ≡ some l) (reason : Kick) where
    erased : lookup pid (erase pid s.players) ≡ none
    erased = rw (lookup-erase pid pid s.players, beq_refl pid) refl

    untouched : (x : BasicId) → x ≢ pid → lookup x (erase pid s.players) ≡ lookup x s.players
    untouched x apart = lookup-erase_ne pid x s.players (beq_false_of_ne pid x (λ e. apart (sym e)))

    abbrev bye : Sent
    bye = send p (ServerMessage.disconnected reason)

    closed-IsRemoved :
        (leave env pid l).master ≡ null
        → IsRemoved (env.now 0) pid p l reason s (
          record s {
            players = erase pid s.players;
            gid_lobbies = remove_from_index p.lid s.gid_lobbies;
            lobbies = erase p.lid (insert p.lid (leave env pid l) s.lobbies);
          },
          bye ∷ [],
        )
    closed-IsRemoved nulled =
        let l' = leave env pid l in
        record {
          peers = refl;
          config = refl;
          gone = erased;
          others = untouched;
          elsewhere = λ lid apart.
              let ne = beq_false_of_ne p.lid lid (λ e. apart (sym e)) in
              lookup-erase_ne p.lid lid (insert p.lid l' s.lobbies) ne
              ∙ lookup-insert_ne p.lid lid l' s.lobbies ne;
          vacated = inl (
            rw (lookup-erase p.lid p.lid (insert p.lid l' s.lobbies), beq_refl p.lid) refl,
            (λ x inside. elim (Bool-cases (pid == x)) [
              | inl same ↦ sym (beq→eq pid x same)
              | inr other ↦
                  let stays = nobody_stays env walk pid x p.lid l s v there nulled in
                  absurd (ground (arith, contains-leave env walk pid x l, other, stays, inside))
            ]),
            refl,
          );
        }

    -- Who is left of the lobby's players is in what is left of the lobby.
    stayer_inside :
        (x : BasicId) (q : Player F)
        → lookup x (erase pid s.players) ≡ some q
        → q.lid ≡ p.lid
        → contains x (leave env pid l).players ≡ true
    stayer_inside x q found' home =
        let (apart, was) = lookup-erase_inv pid x q s.players found' in
        let (l₁, at, member) = v.home x q was in
        let same : l₁ ≡ l = some_inj (sym at ∙ ap (λ i. lookup i s.lobbies) home ∙ there) in
        let inside : contains x l.players ≡ true =
          subst (λ (r : Lobby F). contains x r.players ≡ true) same member in
        contains-leave env walk pid x l ∙ rw apart inside

    left-IsRemoved :
        (leave env pid l).master ≢ null
        → let l' = leave env pid l in
          let t = put_lobby p.lid l' (record s { players = erase pid s.players }) in
          IsRemoved (env.now 0) pid p l reason s (
            t,
            bye
                ∷ (send_to_lobby env p.lid (ServerMessage.left pid reason) t
                    ++ send_to_lobby env p.lid (ServerMessage.set_master l'.master) t),
          )
    left-IsRemoved named =
        let l' = leave env pid l in
        let t = put_lobby p.lid l' (record s { players = erase pid s.players }) in
        let told : (msg : ServerMessage) → AllTold p.lid msg t (send_to_lobby env p.lid msg t) =
          λ msg.
            send_to_lobby-AllTold env p.lid msg l' t walk (lookup-insert_self p.lid l' s.lobbies)
              stayer_inside in
        record {
          peers = refl;
          config = refl;
          gone = erased;
          others = untouched;
          elsewhere = λ lid apart.
              lookup-insert_ne p.lid lid l' s.lobbies
                (beq_false_of_ne p.lid lid (λ e. apart (sym e)));
          vacated = inr (
            l',
            _,
            lookup-insert_self p.lid l' s.lobbies,
            leave-IsLeft env pid l walk (v.rooms p.lid l there) named,
            refl,
            (λ x q here home.
                Mem-append_left _ _ _ (told (ServerMessage.left pid reason) x q here home)),
            (λ x q here home.
                Mem-append_right _ (send_to_lobby env p.lid (ServerMessage.left pid reason) t) _
                  (told (ServerMessage.set_master l'.master) x q here home)),
          );
        }

    -- In a well-formed state the player is gone after `RemovePlayer`; all other players and lobbies,
    -- the peers and the configuration are as they were. The player is dismissed, for the reason given.
    -- Its own lobby is closed if nobody else was in it, and nothing more is sent. Otherwise the lobby
    -- has its other players, its master if that stays, and else a master from those who stay; it
    -- becomes idle if it has fewer than two players now, and all else of it is as it was; and everyone
    -- who stays is told who has left and who is the master. The walk over a hash set is supposed to
    -- meet the elements.
    pub remove_player-IsRemoved :
        IsRemoved (env.now 0) pid p l reason s (remove_player env pid reason s)
    unfolding remove_player
    remove_player-IsRemoved =
        rw (found, remove_player)
          (rw there (elim (Bool-cases (is_null (leave env pid l).master)) [
            | inl nulled ↦ rw nulled (closed-IsRemoved (beq→eq _ null nulled))
            | inr named ↦ rw named (left-IsRemoved (λ e. ground arith))
          ]))

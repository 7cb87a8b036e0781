-- ===== src/Server/Posts.antt =====
-- What stands in the queue of server/src/blaster/mod.rs, and who waits for it.
use mathlib.Core.Bool.{false≢true}
use nut_blast.Base.{
  ℕ, ◌+◌, ◌≡◌, refl, sym, ◌∙◌, ap, Bool, true, false, Option, none, some, List, [], ◌∷◌, ◌++◌,
  arith, ◌==◌, nat_eq, Dict, lookup, insert, lookup-insert_ne, beq_false_of_ne, if◌then◌else◌,
}
use nut_blast.Float.{Float}
use nut_blast.Protocol.Basic.{BasicId}
use nut_blast.Blaster.{BlasterOperation, IpAddr}
use nut_blast.Blaster.Rights.Recv.{ByPlayer}
use nut_blast.Session.{Session, Awaited}
use nut_blast.Session.Orders.{IsChecked, IsRequest}
use nut_blast.Server.{Connection, knocking, waiting, Posted}

abbrev pub is_from : ℕ → Option ℕ → Bool
is_from id none = false
is_from id (some j) = j == id

-- How often a connection waits for an operation of the queue.
unfoldable pub asks : ℕ → List Posted → ℕ
asks id [] = 0
asks id (p ∷ ps) = (if is_from id p.from then 1 else 0) + asks id ps

abbrev pub is_close : IpAddr → BlasterOperation → Bool
is_close ip (BlasterOperation.close_session j) = j == ip
is_close ip op = false

-- How many closes of an address are on their way.
unfoldable pub closing : IpAddr → List Posted → ℕ
closing ip [] = 0
closing ip (p ∷ ps) = (if is_close ip p.op then 1 else 0) + closing ip ps

pub asks-append : (id : ℕ) (ps qs : List Posted) → asks id (ps ++ qs) ≡ asks id ps + asks id qs
unfolding asks
asks-append id [] qs = omega arith
asks-append id (p ∷ ps) qs = omega (arith, asks-append id ps qs)

pub closing-append :
    (ip : IpAddr) (ps qs : List Posted) → closing ip (ps ++ qs) ≡ closing ip ps + closing ip qs
unfolding closing
closing-append ip [] qs = omega arith
closing-append ip (p ∷ ps) qs = omega (arith, closing-append ip ps qs)

module _ {F : Float} where
  -- An operation of the queue is what some task put there: the introduction of a connection that
  -- knocks, a request that a session waits for, an order of a player, a close, or the timer's prune.
  pub data IsPost (connections : Dict ℕ (Connection F)) (p : Posted) : Type 0 where
    knock :
        (id : ℕ) (ip : IpAddr)
        → p.op ≡ BlasterOperation.introduce_session ip
        → p.from ≡ some id
        → lookup id connections ≡ some (knocking ip)
        → IsPost connections p
    request :
        (id : ℕ) (s : Session F) (a : Awaited)
        → p.from ≡ some id
        → lookup id connections ≡ some (waiting s a)
        → IsRequest s p.op a
        → IsPost connections p
    order :
        (pid : BasicId) → p.from ≡ none → ByPlayer pid p.op → IsChecked p.op → IsPost connections p
    close :
        (ip : IpAddr)
        → p.from ≡ none
        → p.op ≡ BlasterOperation.close_session ip
        → IsPost connections p
    prune : p.from ≡ none → p.op ≡ BlasterOperation.prune → IsPost connections p

  abbrev pub EachPost : Dict ℕ (Connection F) → List Posted → Type 0
  EachPost connections [] = Unit
  EachPost connections (p ∷ ps) = EachPost connections ps × IsPost connections p

  pub EachPost-append :
      (connections : Dict ℕ (Connection F)) (ps qs : List Posted)
      → EachPost connections ps
      → EachPost connections qs
      → EachPost connections (ps ++ qs)
  EachPost-append connections [] qs hp hq = hq
  EachPost-append connections (p ∷ ps) qs hp hq = (EachPost-append connections ps qs hp.0 hq, hp.1)

  -- A change of one connection leaves a post of another alone.
  IsPost-insert :
      (id : ℕ) (c : Connection F) (connections : Dict ℕ (Connection F)) (p : Posted)
      → is_from id p.from ≡ false
      → IsPost connections p
      → IsPost (insert id c connections) p
  IsPost-insert id c connections p apart (knock j ip e from there) =
      knock j ip e from (lookup-insert_ne id j c connections (other j from) ∙ there)
    where
      other : (j : ℕ) → p.from ≡ some j → (id == j) ≡ false
      other j from = ground (arith, from, nat_eq.same_iff id j, nat_eq.same_iff j id)
  IsPost-insert id c connections p apart (request j s a from there r) =
      request j s a from (lookup-insert_ne id j c connections (other j from) ∙ there) r
    where
      other : (j : ℕ) → p.from ≡ some j → (id == j) ≡ false
      other j from = ground (arith, from, nat_eq.same_iff id j, nat_eq.same_iff j id)
  IsPost-insert id c connections p apart (order pid from own sound) = order pid from own sound
  IsPost-insert id c connections p apart (close ip from e) = close ip from e
  IsPost-insert id c connections p apart (prune from e) = prune from e

  pub EachPost-insert :
      (id : ℕ) (c : Connection F) (connections : Dict ℕ (Connection F)) (ps : List Posted)
      → asks id ps ≡ 0
      → EachPost connections ps
      → EachPost (insert id c connections) ps
  unfolding asks
  EachPost-insert id c connections [] quiet h = tt
  EachPost-insert id c connections (p ∷ ps) quiet h = (
    EachPost-insert id c connections ps (ground arith) h.0,
    IsPost-insert id c connections p (ground arith) h.1,
  )

  -- The connection does not wait for anything.
  abbrev pub is_quiet : Option (Connection F) → Bool
  is_quiet (some (Connection.knocking ip)) = false
  is_quiet (some (Connection.waiting s a)) = false
  is_quiet o = true

  loud_apart :
      (id j : ℕ) (connections : Dict ℕ (Connection F)) (c : Connection F)
      → is_quiet (some c) ≡ false
      → lookup j connections ≡ some c
      → is_quiet (lookup id connections) ≡ true
      → (j == id) ≡ false
  loud_apart id j connections c loud there quiet = beq_false_of_ne j id (λ e.
      let here : lookup id connections ≡ some c = ap (λ i. lookup i connections) (sym e) ∙ there in
      false≢true (sym loud ∙ ap is_quiet (sym here) ∙ quiet))

  quiet_apart :
      (id : ℕ) (connections : Dict ℕ (Connection F)) (p : Posted)
      → is_quiet (lookup id connections) ≡ true
      → IsPost connections p
      → is_from id p.from ≡ false
  quiet_apart id connections p quiet (knock j ip e from there) =
      ap (is_from id) from ∙ loud_apart id j connections (knocking ip) refl there quiet
  quiet_apart id connections p quiet (request j s a from there r) =
      ap (is_from id) from ∙ loud_apart id j connections (waiting s a) refl there quiet
  quiet_apart id connections p quiet (order pid from own sound) = ap (is_from id) from
  quiet_apart id connections p quiet (close ip from e) = ap (is_from id) from
  quiet_apart id connections p quiet (prune from e) = ap (is_from id) from

  -- No operation of the queue is one that a quiet connection waits for.
  pub asks_quiet :
      (id : ℕ) (connections : Dict ℕ (Connection F)) (ps : List Posted)
      → is_quiet (lookup id connections) ≡ true
      → EachPost connections ps
      → asks id ps ≡ 0
  unfolding asks
  asks_quiet id connections [] quiet h = refl
  asks_quiet id connections (p ∷ ps) quiet h =
      ground (arith, quiet_apart id connections p quiet h.1, asks_quiet id connections ps quiet h.0)

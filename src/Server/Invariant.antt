-- ===== src/Server/Invariant.antt =====
-- What holds of the whole server of server/src between two actions.
pub mod Ops
pub mod Work
pub mod History
use nut_blast.Base.{
  ℕ, ◌+◌, ◌≤◌, ◌≡◌, refl, sym, ◌∙◌, ap, subst, Bool, true, false, Option, none, some, List, [], ◌∷◌,
  ◌++◌, arith, ◌==◌, nat_eq, Dict, lookup, insert, tally, tally-insert_old, tally-insert_new,
  IsKeyed, if◌then◌else◌, lookup-insert_self,
}
use nut_blast.Float.{Float}
use nut_blast.Blaster.{BlasterOperation, IpAddr}
use nut_blast.Blaster.EventLoop.State.{BlasterEventLoop}
use nut_blast.Blaster.Invariant.{IsValid}
use nut_blast.Blaster.Bounds.{IsBounded}
use nut_blast.Blaster.Counts.{live}
use nut_blast.Server.{Connection, knocking, Posted, Server, put}
use nut_blast.Server.Posts.{
  IsPost, knock, EachPost, EachPost-append, EachPost-insert, asks, asks-append, asks_quiet, closing,
  closing-append, is_quiet,
}
use nut_blast.Server.Turns.{held, IsMove}

module _ {F : Float} where
  -- The operations of the queue were posted by tasks that stand where they should; the sessions that
  -- the event loop counts for an address are those that connections hold, and those whose close is
  -- in the queue; and the event loop is well-formed and within its bounds.
  pub record IsSane (s : Server F) : Type 0 where
    pub posts : EachPost s.connections s.queue
    pub once : (id : ℕ) → asks id s.queue ≤ 1
    pub keyed : IsKeyed s.loop.peers
    pub slots :
        (ip : IpAddr) → live ip s.loop.peers ≡ tally (held ip) s.connections + closing ip s.queue
    pub valid : IsValid s.loop
    pub bounded : IsBounded 15 s.loop

  -- A connection that does not wait changes, and posts.
  pub put-IsSane :
      (id : ℕ) (old : Connection F) (r : Connection F × List Posted) (s : Server F)
      → lookup id s.connections ≡ some old
      → asks id s.queue ≡ 0
      → IsMove id s.connections old r
      → IsSane s
      → IsSane (put id r s)
  put-IsSane id old r s there quiet m h = record {
    posts =
        EachPost-append _ s.queue r.1 (EachPost-insert id r.0 s.connections s.queue quiet h.posts)
          m.posts;
    once = λ j.
        ground (arith, asks-append j s.queue r.1, h.once j, m.once j, nat_eq.same_iff j id, quiet);
    keyed = h.keyed;
    slots = λ ip. omega (
      arith,
      h.slots ip,
      closing-append ip s.queue r.1,
      m.balance ip,
      tally-insert_old (held ip) id r.0 old s.connections there,
    );
    valid = h.valid;
    bounded = h.bounded;
  }

  -- A new connection knocks.
  pub accept-IsSane :
      (id : ℕ) (ip : IpAddr) (s : Server F)
      → lookup id s.connections ≡ none
      → IsSane s
      → IsSane (
          put id
            (
              knocking ip,
              record { op = BlasterOperation.introduce_session ip; from = some id } ∷ [],
            )
            s)
  unfolding asks closing
  accept-IsSane id ip s new h =
      let post : Posted = record { op = BlasterOperation.introduce_session ip; from = some id } in
      let quiet = asks_quiet id s.connections s.queue (ap is_quiet new) h.posts in
      record {
        posts =
            EachPost-append _ s.queue (post ∷ [])
              (EachPost-insert id (knocking ip) s.connections s.queue quiet h.posts)
              (tt, knock id ip refl refl (lookup-insert_self id (knocking ip) s.connections));
        once = λ j.
            ground
              (arith, asks-append j s.queue (post ∷ []), h.once j, nat_eq.same_iff id j, quiet);
        keyed = h.keyed;
        slots = λ j. omega (
          arith,
          h.slots j,
          closing-append j s.queue (post ∷ []),
          tally-insert_new (held j) id (knocking ip) s.connections new,
        );
        valid = h.valid;
        bounded = h.bounded;
      }

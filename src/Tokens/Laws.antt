-- ===== src/Tokens/Laws.antt =====
-- What a bucket of server/src/tokens.rs holds: never less than nothing, and never more than its cap.
use nut_blast.Base.{
  ℕ, ◌<◌, ◌≤◌, ◌^◌, ◌-◌, ◌≡◌, ◌≢◌, ◌⊎◌, refl, true, String, Result, ok, err, Bool-cases, inl, inr,
  arith,
}
use nut_blast.Float.{Float}
use nut_blast.Protocol.Payloads.{Kick}
use nut_blast.Tokens.{TokenBucket, new, refill, try_take}

err≢ok : {e : Kick} → ◌≢◌ {A = Result Kick (Unit {0})} (err e) (ok tt)
err≢ok h = cc

module _ {F : Float} where
  open F use {Val, of_usize, le, lt, sub, is_finite, is_nonneg}

  -- A bucket whose numbers are numbers, with its tokens between nothing and `cap`.
  pub record IsWithin (cap : Val) (b : TokenBucket F) : Type 0 where
    pub tokens : is_nonneg b.tokens ≡ true
    pub below : le b.tokens cap ≡ true
    pub max : is_nonneg b.max ≡ true
    pub max_below : le b.max cap ≡ true
    pub rate : is_nonneg b.rate ≡ true
    pub rate_finite : is_finite b.rate ≡ true

  last_refill-refill : (now : ℕ) (b : TokenBucket F) → (refill now b).last_refill ≡ now
  unfolding refill
  last_refill-refill now b = refl

  module _ (cap : Val) (cap_finite : is_finite cap ≡ true) where
    -- What a refill would add up to, before the cap.
    filled_nonneg :
        (d : ℕ) (b : TokenBucket F)
        → IsWithin cap b
        → is_nonneg (F.add b.tokens (F.mul (F.as_secs d) b.rate)) ≡ true
    filled_nonneg d b w =
        F.add_nonneg _ _ w.tokens
          (F.mul_nonneg _ _ (F.as_secs_nonneg d) (F.as_secs_finite d) w.rate w.rate_finite)

    refill-IsWithin : (now : ℕ) (b : TokenBucket F) → IsWithin cap b → IsWithin cap (refill now b)
    unfolding refill
    refill-IsWithin now b w =
        let filled = filled_nonneg (now - b.last_refill) b w in
        elim (Bool-cases (le b.tokens b.max)) [
          | inl room ↦ record {
            tokens = rw room (F.min_nonneg _ _ filled w.max);
            below = rw room (F.le_trans _ _ _ (F.min-le _ _ filled w.max) w.max_below);
            max = w.max;
            max_below = w.max_below;
            rate = w.rate;
            rate_finite = w.rate_finite;
          }
          | inr burst ↦ record {
            tokens = rw burst w.tokens;
            below = rw burst w.below;
            max = w.max;
            max_below = w.max_below;
            rate = w.rate;
            rate_finite = w.rate_finite;
          }
        ]

    -- How a take of `count` at `now` ends that finds `held` tokens.
    pub record Takes (count now : ℕ) (held : Val) (r : TokenBucket F × Result Kick (Unit {0}))
        : Type 0 where
      pub within : IsWithin cap r.0
      pub time : r.0.last_refill ≡ now
      pub verdict :
          ((r.1 ≡ ok tt)
            × (le (of_usize count) held ≡ true)
            × (r.0.tokens ≡ sub held (of_usize count)))
          ⊎ ((r.1 ≢ ok tt) × (lt held (of_usize count) ≡ true) × (r.0.tokens ≡ held))

    -- A take from a bucket within a finite cap leaves it within the cap, and is granted just when the
    -- refilled bucket holds the count: then exactly the count goes, on a refusal nothing does.
    pub try_take-IsWithin :
        (count now : ℕ) (b : TokenBucket F)
        → IsWithin cap b
        → Takes count now (refill now b).tokens (try_take count now b)
    unfolding try_take
    try_take-IsWithin count now b w =
        let w' = refill-IsWithin now b w in
        let held = (refill now b).tokens in
        let c = of_usize count in
        elim (Bool-cases (lt held c)) [
          | inl short ↦ rw short (record {
            within = w';
            time = last_refill-refill now b;
            verdict = inr (err≢ok, short, refl);
          })
          | inr enough ↦
              let covered = F.le_of_not_lt held c w'.tokens (F.of_usize_nonneg count) enough in
              let finite = F.finite_of_le held cap w'.tokens w'.below cap_finite in
              rw enough (record {
                within = record {
                  tokens = F.sub_nonneg held c finite (F.of_usize_nonneg count) covered;
                  below =
                      F.le_trans _ _ _ (F.sub-le held c finite (F.of_usize_nonneg count) covered)
                        w'.below;
                  max = w'.max;
                  max_below = w'.max_below;
                  rate = w'.rate;
                  rate_finite = w'.rate_finite;
                };
                time = last_refill-refill now b;
                verdict = inl (refl, covered, refl);
              })
        ]

  -- A new bucket is full, and within its burst, for a rate that is small and a maximum up to the burst.
  pub new-IsWithin :
      (identifier : String) (rate max burst now : ℕ)
      → rate < 2 ^ 64
      → max ≤ burst
      → IsWithin (of_usize burst) (new identifier rate max burst now)
  unfolding new
  new-IsWithin identifier rate max burst now small low = record {
    tokens = F.of_usize_nonneg burst;
    below = F.of_usize-le burst burst (omega arith);
    max = F.of_usize_nonneg max;
    max_below = F.of_usize-le max burst low;
    rate = F.of_usize_nonneg rate;
    rate_finite = F.of_usize_finite rate small;
  }

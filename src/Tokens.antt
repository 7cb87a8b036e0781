-- ===== src/Tokens.antt =====
-- The token bucket, server/src/tokens.rs. Times are nanoseconds of the monotonic clock.
pub mod Laws
use Prim.Native.String.{◌++◌}
use nut_blast.Float.{Float}
use nut_blast.Base.{ℕ, ◌-◌, Bool, String, Result, ok, err, if◌then◌else◌}
use nut_blast.Protocol.Payloads.{Kick, natural, violation}

pub record TokenBucket (F : Float) : Type 0 where
  pub identifier : String
  pub tokens : F.Val
  pub last_refill : ℕ
  pub rate : F.Val
  pub max : F.Val

module _ {F : Float} where
  -- `TokenBucket::new`, whose rate, maximum and burst are whole.
  unfoldable pub new : String → ℕ → ℕ → ℕ → ℕ → TokenBucket F
  new identifier rate max burst now = record {
    identifier = identifier;
    tokens = F.of_usize burst;
    last_refill = now;
    rate = F.of_usize rate;
    max = F.of_usize max;
  }

  unfoldable pub new_metadata : String → ℕ → TokenBucket F
  unfolding new
  new_metadata identifier now = new identifier 4096 8192 8192 now

  -- The first half of `try_take`. A bucket above its maximum, by its burst, is not refilled.
  unfoldable pub refill : ℕ → TokenBucket F → TokenBucket F
  refill now b =
      let dt = F.as_secs (now - b.last_refill) in
      record b {
        tokens =
            if F.le b.tokens b.max
            then F.min (F.add b.tokens (F.mul dt b.rate)) b.max
            else b.tokens;
        last_refill = now;
      }

  unfoldable pub try_take : ℕ → ℕ → TokenBucket F → TokenBucket F × Result Kick (Unit {0})
  try_take count now b =
      let c = F.of_usize count in
      let r = refill now b in
      if F.lt r.tokens c
      then (
        r,
        err (
            violation ("rate_limited." ++ b.identifier)
              (("Bandwidth patrol! (" ++ b.identifier) ++ ")")),
      )
      else (record r { tokens = F.sub r.tokens c }, ok tt)

-- ===== src/Tests/Faults.antt =====
-- A session that ends by a fault.
use nut_blast.Base.{◌≡◌, refl, ok}
use nut_blast.Float.Exact.{exact}
use nut_blast.Tokens
use nut_blast.Session as Session
use nut_blast.Session.Dispatch.{frame, text, bad_json}
use nut_blast.Server.{gone}
use nut_blast.Server.Faults.{goodbye, seen, faced, unreadable, faced-IsFault}
use nut_blast.Tests.Servers.{read, clock, hosting}

has_payload : (Tokens.try_take {F = exact} 1 (clock 7000 0) hosting.payloads_budget).1 ≡ ok tt
unfolding Session.new Tokens.new Tokens.try_take Tokens.refill
has_payload = refl

has_bandwidth : (Tokens.try_take {F = exact} 3 (clock 7000 1) hosting.bandwidth_budget).1 ≡ ok tt
unfolding Session.new Tokens.new Tokens.try_take Tokens.refill
has_bandwidth = refl

faced-IsFault_example :
    faced read (clock 7000) hosting 0 (seen (frame 3 (text "bad")))
    ≡ (gone, goodbye hosting bad_json)
faced-IsFault_example =
    faced-IsFault read (clock 7000) hosting 0 (seen (frame 3 (text "bad"))) bad_json
      (unreadable 3 "bad" (has_payload, has_bandwidth) refl)

-- ===== src/Service/PayoutService/Cache.antt =====
-- The cache of recipient codes.
use weave_server.Prelude.{subst, ◌≡◌, String, Option, none, some, subst, ◌+◌}
use weave_server.Db.{World, Result, ok, err, provider_failed}
use weave_server.Service.PayoutService.{cached}

-- The code that was handed out is in the cache.
abbrev Kept : String → Result String × World → Type 0
Kept key (ok code, v) = cached key v.recipients ≡ some code
Kept key (err e, v) = Unit {0}

-- Paystack's answer, after which it has been asked once more.
answer : (o : Option String) (w : World) → Result String × World
answer none w = (err provider_failed, record w { called = w.called + 1 })
answer (some code) w = (ok code, record w { called = w.called + 1 })

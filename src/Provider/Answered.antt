-- ===== src/Provider/Answered.antt =====
-- A counted call of a provider that is answered.
use weave_server.Prelude.{◌≡◌, arith, ℕ, ◌+◌, Option, some}
use weave_server.Provider.{call_provider}
use weave_server.Db.{World, ok}

pub call_provider_answered :
    {A : Type 0} (answer : ℕ → Option A) (w : World) (a : A)
    → answer w.called ≡ some a
    → call_provider answer w ≡ (ok a, record w { called = w.called + 1 })
unfolding call_provider
call_provider_answered answer w a h = ground (arith, h)

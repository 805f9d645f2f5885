-- ===== src/Service/TransferService/Commit.antt =====
-- The transaction of `InitiateTransfer`: what is left of it when it ends.
use weave_server.Prelude.{◌≡◌, refl, true, false, none, some, arith}
use weave_server.Db.{M, World, Result, ok, err, ◌>>=◌, begin_tx, commit_tx, give}
use weave_server.Db.Fine.{Fine}
use weave_server.Provider.{Env}
use weave_server.Service.TransferService.{in_tx, deferred}

-- The world at the start of a transaction.
abbrev pub begun : World → World
begun w = record w { snapshot = some w.tables; aborted = false }

give_lem : {A : Type 0} (r : Result A) (w : World) → give r w ≡ (r, w)
unfolding ◌>>=◌
give_lem (ok a) w = refl
give_lem (err e) w = refl

begin_tx-Fine : (w : World) → Fine w → begin_tx w ≡ (ok tt, begun w)
unfolding begin_tx
begin_tx-Fine w fine = ground arith

deferred-Fine : (w : World) → Fine w → deferred w ≡ (ok tt, record w { snapshot = none })
unfolding deferred commit_tx ◌>>=◌
deferred-Fine w fine = ground arith

-- Where a transaction is used, a body that leaves the connection working, be its result a value or
-- an error, ends in a COMMIT: all that it has written stays, also where it failed, and its result is
-- the result.
pub in_tx_commits :
    {A : Type 0} (env : Env) (body : M A) (w : World)
    → env.has_pool ≡ true
    → Fine w
    → Fine (body (begun w)).1
    → in_tx env body w ≡ ((body (begun w)).0, record (body (begun w)).1 { snapshot = none })
unfolding in_tx ◌>>=◌
in_tx_commits env body w pool fine after =
    rw (pool, begin_tx-Fine w fine)
      (rw (deferred-Fine (body (begun w)).1 after) (give_lem (body (begun w)).0 _))

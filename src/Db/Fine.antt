-- ===== src/Db/Fine.antt =====
-- A connection that works: no statement to come fails, and no transaction is spoiled.
use weave_server.Prelude.{◌≡◌, false, Option, [], arith}
use weave_server.Db.Schema.{Tables, World, Error, ok, err}
use weave_server.Db.Statement.{M, statement, query, settle, ◌>>=◌}

abbrev pub Fine : World → Type 0
Fine w = (w.aborted ≡ false) × (w.faults ≡ [])

pub statement-Fine :
    {A : Type 0} (run : Tables → Option (A × Tables)) (w : World)
    → Fine w
    → statement run w ≡ settle (run w.tables) w
unfolding statement
statement-Fine run w h = ground arith

pub query-Fine :
    {A : Type 0} (f : Tables → A) (w : World) → Fine w → query f w ≡ (ok (f w.tables), w)
unfolding query
query-Fine f w h = ground arith

-- A bind whose first part is known to fail.
pub bind-err :
    {A B : Type 0} (m : M A) (f : A → M B) (w : World) {e : Error} {u : World}
    → m w ≡ (err e, u)
    → (m >>= f) w ≡ (err e, u)
unfolding ◌>>=◌
bind-err m f w h = rw h

-- ===== src/Db/Statement.antt =====
-- Go functions as actions on the world, and the statements and transactions that they run.
use weave_server.Prelude.{◌+◌, Option, none, some, Bool, true, false, List, [], ◌∷◌, if◌then◌else◌}
use weave_server.Model.{Uuid}
use weave_server.Db.Schema.{Tables, World, Error, database, Result, ok, err}

abbrev pub M : Type 0 → Type 0
M A = World → Result A × World

module _ {A : Type 0} where
  pub pure : A → M A
  pure a w = (ok a, w)

  pub fail : Error → M A
  fail e w = (err e, w)

  pub gets : (World → A) → M A
  gets f w = (ok (f w), w)

  -- `x, err := m()`, where the code goes on with the error in hand.
  pub attempt : M A → M (Result A)
  attempt m w = let (r, w') = m w in (ok r, w')

  -- `if err := m(); err != nil { log }`: the error is dropped, what was done stays.
  pub ignore : M A → M (Unit {0})
  ignore m w = let (r, w') = m w in (ok tt, w')

module _ {A B : Type 0} where
  abbrev pub continue : Result A → (A → M B) → M B
  continue (ok a) f w = f a w
  continue (err e) f w = (err e, w)

  -- `if err != nil`, on what was kept in hand.
  pub on_result : Result A → (Error → M B) → (A → M B) → M B
  on_result (ok a) g f = f a
  on_result (err e) g f = g e

  -- `if x == nil`
  pub on_option : Option A → M B → (A → M B) → M B
  on_option none m f = m
  on_option (some a) m f = f a

  -- Opening this opens the actions above too.
  infixl 5 ◌>>=◌ ◌>>◌
  unfoldable pub ◌>>=◌ : M A → (A → M B) → M B
  unfolding pure fail gets attempt ignore on_result on_option
  ◌>>=◌ m f w = let (r, w') = m w in continue r f w'

  abbrev pub ◌>>◌ : M A → M B → M B
  m >> k = m >>= λ _. k

-- The error if there is none.
abbrev pub or_fail : {A : Type 0} → Option A → Error → M A
or_fail none e = fail e
or_fail (some a) e = pure a

-- `return x, err`, of what was kept in hand.
abbrev pub give : {A : Type 0} → Result A → M A
give (ok a) = pure a
give (err e) = fail e

-- `if bad { return err }`
abbrev pub fail_if : Bool → Error → M (Unit {0})
fail_if true e = fail e
fail_if false e = pure tt

-- A UUID, drawn at random: the number of the draw stands for it.
unfoldable pub new_uuid : M Uuid
new_uuid w = (ok w.drawn, record w { drawn = w.drawn + 1 })

abbrev pub is_some : {A : Type 0} → Option A → Bool
is_some none = false
is_some (some _) = true

-- Does the next statement fail?
abbrev pub unreachable : List Bool → Bool
unreachable [] = false
unreachable (b ∷ bs) = b

abbrev pub later : List Bool → List Bool
later [] = []
later (b ∷ bs) = bs

-- A statement has been sent.
abbrev pub sent : World → World
sent w = record w { faults = later w.faults }

-- A failed statement leaves the tables alone, and spoils the transaction that it stands in.
abbrev pub spoil : World → World
spoil w = record w { aborted = is_some w.snapshot }

abbrev pub settle : {A : Type 0} → Option (A × Tables) → M A
settle none w = (err database, spoil w)
settle (some (a, t)) w = (ok a, record w { tables = t })

-- `getQuerier(ctx, pool).Exec` and `QueryRow`: none stands for a violated constraint. In a spoiled
-- transaction PostgreSQL refuses every statement.
unfoldable pub statement : {A : Type 0} → (Tables → Option (A × Tables)) → M A
statement run w =
    if w.aborted
    then (err database, w)
    else if unreachable w.faults
    then (err database, spoil (sent w))
    else settle (run w.tables) (sent w)

-- A statement that reads.
unfoldable pub query : {A : Type 0} → (Tables → A) → M A
unfolding statement
query f = statement (λ t. some (f t, t))

-- `pool.Begin`
unfoldable pub begin_tx : M (Unit {0})
begin_tx w =
    if unreachable w.faults
    then (err database, sent w)
    else (ok tt, record (sent w) { snapshot = some w.tables; aborted = false })

abbrev pub restore : Option Tables → World → World
restore none w = w
restore (some t) w = record w { tables = t; snapshot = none; aborted = false }

-- `tx.Commit`: of a spoiled transaction it rolls back and returns an error.
unfoldable pub commit_tx : M (Unit {0})
commit_tx w =
    if w.aborted
    then (err database, restore w.snapshot w)
    else if unreachable w.faults
    then (err database, restore w.snapshot (sent w))
    else (ok tt, record (sent w) { snapshot = none })

-- `tx.Rollback`
unfoldable pub rollback_tx : M (Unit {0})
rollback_tx w = (ok tt, restore w.snapshot w)

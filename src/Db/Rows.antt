-- ===== src/Db/Rows.antt =====
-- UPDATE and the constraints of a table, on its list of rows.
use weave_server.Prelude.{Bool, true, false, Option, none, some, List, [], ◌∷◌}

module _ {A : Type 0} where
  -- A row that passes the test `hit` becomes `new`, which has to pass the CHECK.
  unfoldable pub push_row : (hit check : Bool) (old new : A) → Option (List A) → Option (List A)
  push_row hit check old new none = none
  push_row true true old new (some ys) = some (new ∷ ys)
  push_row true false old new (some ys) = none
  push_row false check old new (some ys) = some (old ∷ ys)

  -- UPDATE … SET f WHERE p, on a table with a CHECK: none if a changed row breaks it.
  unfoldable pub update_rows : (A → Bool) → (A → A) → (A → Bool) → List A → Option (List A)
  unfolding push_row
  update_rows p f check [] = some []
  update_rows p f check (x ∷ xs) = push_row (p x) (check (f x)) x (f x) (update_rows p f check xs)

-- The CHECK of a table without one.
abbrev pub unchecked : {A : Type 0} → A → Bool
unchecked _ = true

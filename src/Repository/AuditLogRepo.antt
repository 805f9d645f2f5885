-- ===== src/Repository/AuditLogRepo.antt =====
-- internal/repository/audit_log_repo.go: `Write`, without the metadata.
use weave_server.Prelude.{
  String, Bool, true, Option, none, some, [], ◌∷◌, ◌++◌, any, ◌==◌, if◌then◌else◌,
}
use weave_server.Model.{Uuid, AuditLog}
use weave_server.Db.{Tables, M, gets, ◌>>=◌, statement}

abbrev known : Option Uuid → Tables → Bool
known none t = true
known (some id) t = any (λ u. u.id == id) t.users

unfoldable pub insert : AuditLog → Tables → Option (Unit {0} × Tables)
insert entry t =
    if known entry.user_id t
    then some (tt, record t { audit_logs = t.audit_logs ++ entry ∷ [] })
    else none

unfoldable pub write : Option Uuid → (action status : String) → M (Unit {0})
unfolding insert
write user_id action status = do
  now ← gets (λ w. w.now)
  statement
      (insert (record { user_id = user_id; action = action; status = status; created_at = now }))

-- ===== src/Handler/Response.antt =====
-- internal/handler/response.go, and how the handlers are built. A handler gets the user of the context
-- and the body of the request, decoded; none is a body that cannot be decoded.
use weave_server.Prelude.{ℕ, String, Bool, true, false, Option, none, some, str_eq, if◌then◌else◌}
use weave_server.Prelude.Int.{ℤ, pos, ◌-ℤ◌, ◌*ℤ◌, ltb_ℤ}
use weave_server.Prelude.Word.{wrap}
use weave_server.Model.{Uuid}
use weave_server.Db.{World, M, Result, ok, err, Error, nil_dereference}
use weave_server.Http.{Body, respond, Outcome, answered, panicked, error, health}

abbrev pub Action : Type 0
Action = World → Outcome × World

-- `respondJSON`
abbrev pub respond_json : ℕ → Body → Action
respond_json code body w = (answered (respond code body), w)

-- `respondError`; `respondErrorMsg` adds a text for the user.
abbrev pub respond_error : ℕ → String → Action
respond_error code name w = (answered (respond code (error name)), w)

-- `HealthCheck` of internal/handler/health.go
unfoldable pub health_check : Action
health_check = respond_json 200 (health "ok" "weave-server")

abbrev pub panics : Error → Bool
panics nil_dereference = true
panics _ = false

module _ {A : Type 0} where
  abbrev pub finish : Result A → (Error → Action) → (A → Action) → Action
  finish (ok a) g f w = f a w
  finish (err e) g f w = if panics e then (panicked, w) else g e w

  -- `x, err := call(); if err != nil { … }`
  abbrev pub handle : M A → (Error → Action) → (A → Action) → Action
  handle m g f w = let (r, w') = m w in finish r g f w'

  -- `json.NewDecoder(r.Body).Decode(&req)`
  abbrev pub decode : Option A → String → (A → Action) → Action
  decode none name f = respond_error 400 name
  decode (some a) name f = f a

  -- `if x == nil`
  abbrev pub present : Option A → Action → (A → Action) → Action
  present none g f = g
  present (some a) g f = f a

-- `middleware.GetUserID`
abbrev pub on_user : Option Uuid → (Uuid → Action) → Action
on_user none f = respond_error 401 "unauthorized"
on_user (some user_id) f = f user_id

-- `if bad { respondError(…); return }`
abbrev pub refuse_if : Bool → ℕ → String → Action → Action
refuse_if true code name next = respond_error code name
refuse_if false code name next = next

abbrev pub positive_or : ℤ → Option ℤ → ℤ
positive_or default none = default
positive_or default (some v) = if ltb_ℤ (pos 0) v then v else default

-- A parameter of the query; "" if it is not there.
abbrev pub query_number : (String → Option ℤ) → String → ℤ → ℤ
query_number atoi text default = if str_eq text "" then default else positive_or default (atoi text)

-- `math.Min(float64(perPage), 100)`
abbrev pub at_most_100 : ℤ → ℤ
at_most_100 n = if ltb_ℤ (pos 100) n then pos 100 else n

-- `parsePagination`: page and rows per page
unfoldable pub parse_pagination :
    (String → Option ℤ) → (page per_page : String) → (default_page default_per_page : ℤ) → ℤ × ℤ
parse_pagination atoi page per_page default_page default_per_page =
    (query_number atoi page default_page, at_most_100 (query_number atoi per_page default_per_page))

-- `(page - 1) * perPage`
unfoldable pub offset_of : ℤ → ℤ → ℤ
offset_of page per_page = wrap (wrap (page -ℤ pos 1) *ℤ per_page)

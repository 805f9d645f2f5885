-- ===== src/Middleware/Writer/Protections.antt =====
-- Which answers carry the headers of `SecurityHeaders`.
use weave_server.Prelude.{
  ◌≡◌, refl, ◌∙◌, ap, String, Bool, false, not, ◌&&◌, ◌++◌, Option, none, some, List, [], ◌∷◌,
  str_eq, All, Bool-cases, inl, inr, if◌then◌else◌,
}
use weave_server.Http.{Request}
use weave_server.Middleware.Security.{has_body, is_options}
use weave_server.Middleware.Writer.{
  Headers, Writer, set, write_header, write_body, Op, set_op, status_op, write_op, run, outgoing,
  security_headers, request_id, cors_headers, write_json,
}
use weave_server.Middleware.Writer.Recorded.{headers_in, final_headers, run_sent}

-- The value of a header; the last that was set counts.
abbrev pub value_of : String → Headers → Option String
value_of name [] = none
value_of name ((n, v) ∷ hs) = if str_eq n name then some v else value_of name hs

-- The name is not set.
abbrev pub Leaves : String → List Op → Type 0
Leaves name [] = Unit {0}
Leaves name (set_op n value ∷ ops) = (str_eq n name ≡ false) × Leaves name ops
Leaves name (status_op code ∷ ops) = Leaves name ops
Leaves name (write_op text ∷ ops) = Leaves name ops

keep_value :
    (name value : String) (ops : List Op) (w : Writer)
    → Leaves name ops
    → w.sent ≡ none
    → value_of name w.headers ≡ some value
    → value_of name (final_headers (run ops w)) ≡ some value
keep_value name value [] w h unsent is_set = rw unsent is_set
keep_value name value (set_op n v ∷ ops) w h unsent is_set =
    keep_value name value ops (set n v w) h.1 unsent (rw h.0 is_set)
keep_value name value (status_op code ∷ ops) w h unsent is_set =
    ap (λ o. value_of name (headers_in (run ops (write_header code w)).headers o))
      (run_sent ops (write_header code w) {x = (code, w.headers)} (rw unsent refl))
    ∙ is_set
keep_value name value (write_op text ∷ ops) w h unsent is_set =
    ap (λ o. value_of name (headers_in (run ops (write_body text w)).headers o))
      (run_sent ops (write_body text w) {x = (200, w.headers)} (rw unsent refl))
    ∙ is_set

keep_values :
    (ps : List (String × String)) (ops : List Op) (w : Writer)
    → All (λ p. Leaves p.0 ops) ps
    → w.sent ≡ none
    → All (λ p. value_of p.0 w.headers ≡ some p.1) ps
    → All (λ p. value_of p.0 (final_headers (run ops w)) ≡ some p.1) ps
keep_values [] ops w h unsent are_set = tt
keep_values ((n, v) ∷ ps) ops w h unsent are_set =
    (keep_value n v ops w h.0 unsent are_set.0, keep_values ps ops w h.1 unsent are_set.1)

-- What a browser is told by `SecurityHeaders`.
abbrev pub protections : List (String × String)
protections =
    ("X-Content-Type-Options", "nosniff")
    ∷ ("X-Frame-Options", "DENY")
    ∷ ("X-XSS-Protection", "0")
    ∷ ("Strict-Transport-Security", "max-age=31536000; includeSubDomains")
    ∷ ("Cache-Control", "no-store")
    ∷ ("Content-Security-Policy", "default-src 'none'")
    ∷ []

abbrev pub refused : Request → Bool
refused r = has_body r.method && not (str_eq r.content_type "application/json")

-- What the rest of the stack does, after the headers of the middleware.
abbrev pub inner : Request → List Op → List Op
inner r next = if is_options r.method then status_op 204 ∷ [] else next

-- Each answer carries the six headers of `SecurityHeaders`, whatever the rest of the stack writes, as long
-- as it sets none of them itself; but not the answer 415 of `RequireJSON`, which stands outside and
-- sends none of them.
pub outgoing-protections :
    (r : Request) (origin request_id_header fresh_id : String) (next : List Op) (w : Writer)
    → w.sent ≡ none
    → w.headers ≡ []
    → All (λ p. Leaves p.0 (inner r next)) protections
    → All
        (λ p.
          value_of p.0 (final_headers (run (outgoing r origin request_id_header fresh_id next) w))
          ≡ (if refused r then none else some p.1))
        protections
unfolding outgoing write_json security_headers request_id cors_headers
outgoing-protections r origin request_id_header fresh_id next w unsent bare leaves =
    elim (Bool-cases (refused r)) [
      | inl bad ↦ rw (bad, unsent, bare) (refl, (refl, (refl, (refl, (refl, (refl, tt))))))
      | inr good ↦
          let before =
            run
              (security_headers
                ++ request_id request_id_header fresh_id
                ++ cors_headers ("*" ∷ []) origin)
              w in
          rw good (
            keep_values protections (inner r next) before leaves unsent
              (refl, (refl, (refl, (refl, (refl, (refl, tt)))))))
    ]

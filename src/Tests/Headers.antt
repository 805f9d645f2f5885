-- ===== src/Tests/Headers.antt =====
-- The theorems on the headers that go out, at the answer of a handler.
use weave_server.Prelude.{◌≡◌, refl, none, some, List, [], ◌∷◌, All, if◌then◌else◌}
use weave_server.Middleware.Writer.{
  Writer, Recorder, Op, run, write_json, first_time, replay_ops, outgoing,
}
use weave_server.Middleware.Writer.Recorded.{final_code, final_headers, replay_ops-first_time}
use weave_server.Middleware.Writer.Protections.{
  value_of, protections, refused, outgoing-protections,
}
use weave_server.Tests.Requests.{signed}

abbrev new_writer : Writer
new_writer = record { headers = []; sent = none; body = "" }

-- The answer to the request, with an id from the middleware before.
abbrev with_id : Writer
with_id = record { headers = ("X-Request-ID", "7") ∷ []; sent = none; body = "" }

abbrev ops : List Op
ops = write_json 201 "{}"

abbrev kept_answer : Recorder
kept_answer = record { status = 201; body = "{}" }

replay_ops-first_time_example :
    ((first_time "K7" ops with_id).1.sent
      ≡ some (201, ("Content-Type", "application/json") ∷ ("X-Request-ID", "7") ∷ []))
    × (kept_answer.status ≡ 201)
    × (kept_answer.body ≡ (first_time "K7" ops with_id).1.body)
    × (final_code (run (replay_ops kept_answer) with_id) ≡ kept_answer.status)
    × ((run (replay_ops kept_answer) with_id).body ≡ kept_answer.body)
    × (final_headers (run (replay_ops kept_answer) with_id)
        ≡ ("Idempotency-Replayed", "true") ∷ ("X-Request-ID", "7") ∷ [])
unfolding first_time write_json
replay_ops-first_time_example =
    replay_ops-first_time "K7" ops with_id with_id kept_answer
      (201, ("Content-Type", "application/json") ∷ ("X-Request-ID", "7") ∷ []) tt (refl, refl)
      (refl, refl) refl refl

outgoing-protections_example :
    All
      (λ p.
        value_of p.0 (final_headers (run (outgoing signed "" "" "7" ops) new_writer))
        ≡ (if refused signed then none else some p.1))
      protections
unfolding write_json
outgoing-protections_example =
    outgoing-protections signed "" "" "7" ops new_writer refl refl
      ((refl, tt), ((refl, tt), ((refl, tt), ((refl, tt), ((refl, tt), ((refl, tt), tt))))))

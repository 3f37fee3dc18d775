-- ===== src/Router/Response.antt =====
-- The outer middleware: `Recover`, `statusRecorder` and `RequestLogger` of
-- server/internal/httpapi/middleware.go, in the order in which server/internal/httpapi/router.go
-- puts them around the handlers. A handler is what it does with its ResponseWriter, and whether it
-- panics after that; of a response net/http sends the first status, which is 200 if a body comes first.
use familycards.Prelude.{
  ℕ, ◌≡◌, refl, sym, ap, inl, inr, Bool, Option, none, some, List, [], ◌∷◌, ◌++◌, Bool-cases,
  if◌then◌else◌,
}
use familycards.Http.{Bytes}

pub data Act : Type 0 where
  write_header : ℕ → Act
  write_body : Bytes → Act

pub record Handling : Type 0 where
  pub acts : List Act
  pub panics : Bool

-- What has been sent.
pub record Sent : Type 0 where
  pub status : Option ℕ
  pub body : Bytes

abbrev pub nothing_sent : Sent
nothing_sent = record { status = none; body = [] }

abbrev pub or_status : Option ℕ → ℕ → ℕ
or_status none n = n
or_status (some m) n = m

-- net/http
abbrev pub send : Act → Sent → Sent
send (write_header n) sent = record sent { status = some (or_status sent.status n) }
send (write_body b) sent = record sent {
  status = some (or_status sent.status 200);
  body = sent.body ++ b;
}

-- The status of the response, which is 200 if the handler sent nothing.
abbrev pub status_sent : Sent → ℕ
status_sent sent = or_status sent.status 200

-- A `statusRecorder` is the status that it has seen last.
abbrev pub seen : Act → ℕ → ℕ
seen (write_header n) last = n
seen (write_body b) last = last

-- What the handler does through the recorder: what is sent, and the status recorded.
unfoldable pub run_acts : List Act → Sent → ℕ → Sent × ℕ
run_acts [] sent last = (sent, last)
run_acts (a ∷ rest) sent last = run_acts rest (send a sent) (seen a last)

-- The response, and the status in the log line; a panic passes through, before the line.
unfoldable pub request_logger : Handling → Sent → Sent × Option ℕ
unfolding run_acts
request_logger h sent =
    let (after, last) = run_acts h.acts sent 200 in (after, if h.panics then none else some last)

-- `error_json` is the text of the generic error.
unfoldable pub recover : Bytes → Handling → Sent × Option ℕ
unfolding request_logger
recover error_json h =
    let (sent, line) = request_logger h nothing_sent in
    (if h.panics then send (write_body error_json) (send (write_header 500) sent) else sent, line)

-- A handler that writes the status first, if it does, and once.
abbrev pub OnlyBodies : List Act → Type 0
OnlyBodies [] = Unit {0}
OnlyBodies (write_header n ∷ rest) = ⊥
OnlyBodies (write_body b ∷ rest) = OnlyBodies rest

abbrev pub StatusFirst : List Act → Type 0
StatusFirst [] = Unit {0}
StatusFirst (write_header n ∷ rest) = OnlyBodies rest
StatusFirst (write_body b ∷ rest) = OnlyBodies rest

run_acts-bodies :
    (acts : List Act) (n : ℕ) (b : Bytes)
    → OnlyBodies acts
    → status_sent (run_acts acts (record { status = some n; body = b }) n).0
      ≡ (run_acts acts (record { status = some n; body = b }) n).1
unfolding run_acts
run_acts-bodies [] n b h = refl
run_acts-bodies (write_header m ∷ acts) n b h = absurd h
run_acts-bodies (write_body c ∷ acts) n b h = run_acts-bodies acts n (b ++ c) h

run_acts-status :
    (acts : List Act)
    → StatusFirst acts
    → status_sent (run_acts acts nothing_sent 200).0 ≡ (run_acts acts nothing_sent 200).1
unfolding run_acts
run_acts-status [] h = refl
run_acts-status (write_header n ∷ acts) h = run_acts-bodies acts n [] h
run_acts-status (write_body b ∷ acts) h = run_acts-bodies acts 200 b h

-- The status of what is sent is that of the first act.
run_acts-first :
    (acts : List Act) (n last : ℕ) (b : Bytes)
    → (run_acts acts (record { status = some n; body = b }) last).0.status ≡ some n
unfolding run_acts
run_acts-first [] n last b = refl
run_acts-first (write_header m ∷ acts) n last b = run_acts-first acts n m b
run_acts-first (write_body c ∷ acts) n last b = run_acts-first acts n last (b ++ c)

abbrev pub first_status : List Act → ℕ → ℕ
first_status [] n = n
first_status (write_header m ∷ acts) n = m
first_status (write_body b ∷ acts) n = 200

run_acts-first_status :
    (acts : List Act) (n : ℕ)
    → or_status (run_acts acts nothing_sent 200).0.status n ≡ first_status acts n
unfolding run_acts
run_acts-first_status [] n = refl
run_acts-first_status (write_header m ∷ acts) n =
    ap (λ o. or_status o n) (run_acts-first acts m m [])
run_acts-first_status (write_body b ∷ acts) n =
    ap (λ o. or_status o n) (run_acts-first acts 200 200 b)

-- Where the handler writes the status before the body, if it writes it at all, and once, the request
-- is answered with that status; with none written, with 200, or with 500 if the handler panics before
-- it has written anything. The request is logged with the status that is sent, unless the handler
-- panics: then no line is logged.
pub recover_answers :
    (error_json : Bytes) (h : Handling)
    → StatusFirst h.acts
    → (status_sent (recover error_json h).0 ≡ first_status h.acts (if h.panics then 500 else 200))
      × ((recover error_json h).1
          ≡ (if h.panics then none else some (status_sent (recover error_json h).0)))
unfolding recover request_logger
recover_answers error_json h first = elim (Bool-cases h.panics) [
  | inl panicked ↦ rw panicked (run_acts-first_status h.acts 500, refl)
  | inr returned ↦
      rw returned (run_acts-first_status h.acts 200, ap some (sym (run_acts-status h.acts first)))
]

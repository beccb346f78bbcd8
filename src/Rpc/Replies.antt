-- ===== src/Rpc/Replies.antt =====
-- The replies that src/rpc_client.cpp reads: `PraseResponseGLA`, `PraseResponseSETS` and
-- `PraseResponseLogIn`, and the callbacks around them. `none` is an assertion of rapidjson that
-- fails and ends the program.
use rokit_locator_qr_addon.Base.{ℕ, true, false, Option, none, some, List, [], ◌∷◌}
use rokit_locator_qr_addon.Base.Int.{ℤ}
use rokit_locator_qr_addon.Base.{◌>>=◌}
use rokit_locator_qr_addon.Rpc.Json.{
  Json, codes, get_member, has_member, get_int, get_int64, get_uint64, get_string,
}

-- What a reply is reported as, on the terminal and in the log.
pub data Report : Type 0 where
  unparsable : Report
  error : ℤ → List ℕ → Report
  observed : ℤ → ℕ → Report
  seeded : ℕ → Report
  logged_in : ℕ → List ℕ → Report

module _ {D : Type 0} where
  parse_error : Json D → Option Report
  parse_error doc = do
    e ← get_member (codes "error") doc
    c ← get_member (codes "code") e
    m ← get_member (codes "message") e
    code ← get_int c
    message ← get_string m
    some (error code message)

  -- `doc["result"]["response"][name]`.
  response : List ℕ → Json D → Option (Json D)
  response name doc = do
    result ← get_member (codes "result") doc
    r ← get_member (codes "response") result
    get_member name r

  unfoldable pub parse_response_gla : Json D → Option Report
  unfolding parse_error response
  parse_response_gla doc = do
    failed ← has_member (codes "error") doc
    elim failed [
      | true ↦ parse_error doc
      | false ↦ do
        i ← response (codes "observationId") doc
        observation ← get_int64 i
        c ← response (codes "responseCode") doc
        code ← get_uint64 c
        some (observed observation code)
    ]

  unfoldable pub parse_response_sets : Json D → Option Report
  unfolding parse_error response
  parse_response_sets doc = do
    failed ← has_member (codes "error") doc
    elim failed [
      | true ↦ parse_error doc
      | false ↦ do c ← response (codes "responseCode") doc; code ← get_uint64 c; some (seeded code)
    ]

  unfoldable pub parse_response_log_in : Json D → Option Report
  unfolding parse_error response
  parse_response_log_in doc = do
    failed ← has_member (codes "error") doc
    elim failed [
      | true ↦ parse_error doc
      | false ↦ do
        c ← response (codes "responseCode") doc
        code ← get_uint64 c
        s ← response (codes "sessionId") doc
        session ← get_string s
        some (logged_in code session)
    ]

  -- A write callback: `none` among the arguments is a piece of the reply that does not parse.
  unfoldable pub write_cb : (Json D → Option Report) → Option (Json D) → Option Report
  write_cb parse none = some unparsable
  write_cb parse (some doc) = parse doc

-- The static `sessionIdPtr` of the log-in client, after a report.
abbrev pub session_after : List ℕ → Report → List ℕ
session_after session (logged_in code new) = new
session_after session unparsable = session
session_after session (error code message) = session
session_after session (observed i code) = session
session_after session (seeded code) = session

module _ {D : Type 0} where
  -- The callback of the log-in client at each piece of a reply.
  unfoldable pub write_cb_log_in : List ℕ → List (Option (Json D)) → Option (List ℕ)
  unfolding write_cb parse_response_log_in
  write_cb_log_in session [] = some session
  write_cb_log_in session (piece ∷ pieces) = elim (write_cb parse_response_log_in piece) [
    | none ↦ none
    | some report ↦ write_cb_log_in (session_after session report) pieces
  ]

  -- The callbacks of the other two clients, whose reports change nothing.
  unfoldable pub write_cb_all :
      (Json D → Option Report) → List (Option (Json D)) → Option (List Report)
  unfolding write_cb
  write_cb_all parse [] = some []
  write_cb_all parse (piece ∷ pieces) = do
    report ← write_cb parse piece
    reports ← write_cb_all parse pieces
    some (report ∷ reports)

-- ===== src/Rpc/Session/LogIn.antt =====
-- Which session `getSessionId` and `inputAccount` of src/main_logic.cpp end with.
use rokit_locator_qr_addon.Base.{
  ℕ, ◌≡◌, refl, ◌∙◌, true, false, Option, none, some, List, [], ◌∷◌, arith,
}
use rokit_locator_qr_addon.Base.Int.{ℤ}
use rokit_locator_qr_addon.Rpc.{Account}
use rokit_locator_qr_addon.Rpc.Json.{
  Json, codes, get_member, has_member, get_int, get_uint64, get_string,
}
use rokit_locator_qr_addon.Rpc.Requests.{write_json_log_in}
use rokit_locator_qr_addon.Rpc.Replies.{
  Report, logged_in, session_after, write_cb, write_cb_log_in, parse_response_log_in,
}
use rokit_locator_qr_addon.Rpc.Session.{Http, Session, next_id, get_session_id, is_empty}

-- A reply with an error code and message.
pub record IsError {D : Type 0} (doc : Json D) : Type 0 where
  pub error : Json D
  pub code : Json D
  pub message : Json D
  pub number : ℤ
  pub text : List ℕ
  pub has_error : has_member (codes "error") doc ≡ some true
  pub error_lem : get_member (codes "error") doc ≡ some error
  pub code_lem : get_member (codes "code") error ≡ some code
  pub message_lem : get_member (codes "message") error ≡ some message
  pub number_lem : get_int code ≡ some number
  pub text_lem : get_string message ≡ some text

-- A reply without an error and with a response code and a session.
pub record IsLogIn {D : Type 0} (doc : Json D) (session : List ℕ) : Type 0 where
  pub result : Json D
  pub response : Json D
  pub code : Json D
  pub id : Json D
  pub number : ℕ
  pub no_error : has_member (codes "error") doc ≡ some false
  pub result_lem : get_member (codes "result") doc ≡ some result
  pub response_lem : get_member (codes "response") result ≡ some response
  pub code_lem : get_member (codes "responseCode") response ≡ some code
  pub id_lem : get_member (codes "sessionId") response ≡ some id
  pub number_lem : get_uint64 code ≡ some number
  pub session_lem : get_string id ≡ some session

-- What one piece of the reply makes of the session: an error and a piece that does not parse leave
-- it, and a log-in replaces it.
pub data Reads {D : Type 0} : List ℕ → List (Option (Json D)) → List ℕ → Type 0 where
  finished : (s : List ℕ) → Reads s [] s
  unparsable : {s t : List ℕ} {ps : List (Option (Json D))} → Reads s ps t → Reads s (none ∷ ps) t
  error :
      {s t : List ℕ} {ps : List (Option (Json D))} (doc : Json D)
      → IsError doc
      → Reads s ps t
      → Reads s (some doc ∷ ps) t
  log_in :
      {s t : List ℕ} {ps : List (Option (Json D))} (doc : Json D) (new : List ℕ)
      → IsLogIn doc new
      → Reads new ps t
      → Reads s (some doc ∷ ps) t

module _ {D : Type 0} where
  parse-IsError :
      (doc : Json D) (e : IsError doc)
      → parse_response_log_in doc ≡ some (Report.error e.number e.text)
  unfolding parse_response_log_in
  parse-IsError doc e =
      rw (e.has_error, e.error_lem, e.code_lem, e.message_lem, e.number_lem, e.text_lem)

  parse-IsLogIn :
      (doc : Json D) (new : List ℕ) (l : IsLogIn doc new)
      → parse_response_log_in doc ≡ some (logged_in l.number new)
  unfolding parse_response_log_in
  parse-IsLogIn doc new l =
      rw (
        l.no_error, l.result_lem, l.response_lem, l.code_lem, l.number_lem, l.id_lem, l.session_lem,
      )

  write_cb_log_in-cons :
      (s : List ℕ) (ps : List (Option (Json D))) (doc : Json D) (report : Report)
      → parse_response_log_in doc ≡ some report
      → write_cb_log_in s (some doc ∷ ps) ≡ write_cb_log_in (session_after s report) ps
  unfolding write_cb_log_in write_cb
  write_cb_log_in-cons s ps doc report e = ground arith

  write_cb_log_in-Reads :
      {s t : List ℕ} {ps : List (Option (Json D))} → Reads s ps t → write_cb_log_in s ps ≡ some t
  unfolding write_cb_log_in write_cb
  write_cb_log_in-Reads (finished s) = refl
  write_cb_log_in-Reads (unparsable r) = write_cb_log_in-Reads r
  write_cb_log_in-Reads (error {s = s} {ps = ps} doc e r) =
      write_cb_log_in-cons s ps doc _ (parse-IsError doc e) ∙ write_cb_log_in-Reads r
  write_cb_log_in-Reads (log_in {s = s} {ps = ps} doc new l r) =
      write_cb_log_in-cons s ps doc _ (parse-IsLogIn doc new l) ∙ write_cb_log_in-Reads r

module _ {D Net : Type 0} (http : Http D Net) where
  -- If the pieces of the server's answer to the log-in are errors, log-ins and pieces that do not
  -- parse, `getSessionId` ends with the session of the last log-in among them, and with the empty one
  -- if there is none; the session that was there before has no part in it. The request bears the
  -- next number, which is then counted on.
  pub get_session_id_lem :
      (account : Account) (s : Session Net) (new : List ℕ)
      → let request =
          write_json_log_in (record { method = codes "sessionLogin"; id = s.global_id }) account in
        let (pieces, net) = http.post request s.net in
        Reads [] pieces new
        → get_session_id http account s
          ≡ some (record { session_id = new; global_id = next_id s.global_id; net = net })
  unfolding get_session_id
  get_session_id_lem account s new r = rw (write_cb_log_in-Reads r)

  -- The accounts that the user types up to the one that is taken, from a state of the server: each
  -- one before it has got an empty session, and it has not.
  pub data Accepts : Net → List Account → Account → Net → Type 0 where
    accept :
        {net : Net} (account : Account) (s : Session Net) (typed : List Account)
        → get_session_id http account (record { session_id = []; global_id = 3333; net = net })
          ≡ some s
        → is_empty s.session_id ≡ false
        → Accepts net (account ∷ typed) account s.net
    refuse :
        {net : Net} {typed : List Account} {last : Account} {end : Net} (account : Account)
        (s : Session Net)
        → get_session_id http account (record { session_id = []; global_id = 3333; net = net })
          ≡ some s
        → is_empty s.session_id ≡ true
        → Accepts s.net typed last end
        → Accepts net (account ∷ typed) last end

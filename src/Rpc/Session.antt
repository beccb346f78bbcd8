-- ===== src/Rpc/Session.antt =====
-- `getSessionId` and `Account::inputAccount` of src/main_logic.cpp, with the server behind curl as a
-- parameter.
pub mod LogIn
use rokit_locator_qr_addon.Base.{
  ℕ, ◌+◌, ◌%◌, Bool, true, false, not, ◌||◌, ◌&&◌, Option, none, some, List, [], ◌∷◌, if◌then◌else◌,
}
use rokit_locator_qr_addon.Base.{◌>>=◌}
use rokit_locator_qr_addon.Dm.{u64}
use rokit_locator_qr_addon.Rpc.{RpcInfo, Account}
use rokit_locator_qr_addon.Rpc.Json.{Json, codes}
use rokit_locator_qr_addon.Rpc.Writer.{Call}
use rokit_locator_qr_addon.Rpc.Requests.{write_json_log_in}
use rokit_locator_qr_addon.Rpc.Replies.{write_cb_log_in}

-- `curl_easy_perform`: the server answers a request with the pieces that go to the write callback,
-- each as rapidjson parses it.
pub record Http (D Net : Type 0) : Type 0 where
  pub post : List (Call D) → Net → List (Option (Json D)) × Net

-- `*sessionIdPtr`, `globalId` and the state of the connection to the server.
pub record Session (Net : Type 0) : Type 0 where
  pub session_id : List ℕ
  pub global_id : ℕ
  pub net : Net

-- `globalId++`.
abbrev pub next_id : ℕ → ℕ
next_id n = (n + 1) % u64

module _ {D Net : Type 0} (http : Http D Net) where
  -- `none` if an assertion of rapidjson ends the program.
  unfoldable pub get_session_id : Account → Session Net → Option (Session Net)
  unfolding write_cb_log_in
  get_session_id account s = do
    let rpc : RpcInfo = record { method = codes "sessionLogin"; id = s.global_id }
    let (pieces, net) = http.post (write_json_log_in rpc account) s.net
    session_id ← write_cb_log_in [] pieces
    some (record { session_id = session_id; global_id = next_id s.global_id; net = net })

abbrev pub is_empty : List ℕ → Bool
is_empty [] = true
is_empty (c ∷ s) = false

-- The end of `inputAccount`: it waits for more input, the program has ended, or there is an account,
-- with the account that the file then holds.
pub data Input (Net : Type 0) : Type 0 where
  waiting aborted : Input Net
  entered : Account → Account → Net → Input Net

module _ {D Net : Type 0} (http : Http D Net) where
  -- From the label INPUTACCOUNT, with the accounts that the user types.
  ask : List Account → Net → Input Net
  unfolding get_session_id
  ask [] net = waiting
  ask (account ∷ typed) net =
      elim (get_session_id http account (record { session_id = []; global_id = 3333; net = net })) [
        | none ↦ aborted
        | some s ↦
            let again = ask typed s.net in
            if is_empty s.session_id then again else entered account account s.net
      ]

  unfoldable pub input_account : Account → List Account → Net → Input Net
  unfolding ask
  input_account file typed net =
      if is_empty file.user_name || is_empty file.pass_word
      then ask typed net
      else entered file file net

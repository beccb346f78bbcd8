-- ===== src/Rpc/Curl.antt =====
-- How the three clients of src/rpc_client.cpp send a request: `postCurl`, `setSeed` and
-- `sessionLogIn` make the same calls of curl, but for the text and the write callback. curl is a
-- parameter: what `curl_easy_perform` does with the options that are set.
pub mod Sent
mod Tests
use Prim.Native.String.{String}
use rokit_locator_qr_addon.Base.{
  ℕ, suc, Bool, true, Option, none, some, List, [], ◌∷◌, ◌==◌, if◌then◌else◌,
}
use rokit_locator_qr_addon.Rpc.Json.{Json}
use rokit_locator_qr_addon.Rpc.Writer.{Call}

pub data Callback : Type 0 where
  write_cb_gla write_cb_sets write_cb_log_in : Callback

-- A call of `curl_easy_setopt`.
pub data Setopt : Type 0 where
  buffer_size post_field_size post_field_size_large max_redirs : ℕ → Setopt
  url user_agent custom_request : String → Setopt
  no_progress ftp_skip_pasv_ip tcp_keep_alive : Bool → Setopt
  post_fields : List ℕ → Setopt
  http_header : List String → Setopt
  http_version_2tls : Setopt
  write_function : Callback → Setopt

-- `curl_easy_perform` with the options in the order of their calls: the pieces that go to the write
-- callback, as rapidjson parses them.
pub record Curl (D Net : Type 0) : Type 0 where
  pub perform : List Setopt → Net → List (Option (Json D)) × Net

-- The length of a `c_str()`.
unfoldable pub strlen : List ℕ → ℕ
strlen [] = 0
strlen (c ∷ text) = let n = strlen text in if c == 0 then 0 else suc n

pub options : Callback → List ℕ → List Setopt
options callback text =
    buffer_size 102400
    ∷ url "http://localhost:8080"
    ∷ no_progress true
    ∷ post_field_size (strlen text)
    ∷ post_fields text
    ∷ post_field_size_large (strlen text)
    ∷ http_header ("Content-Type: application/json" ∷ [])
    ∷ user_agent "curl/7.68.0"
    ∷ max_redirs 50
    ∷ http_version_2tls
    ∷ custom_request "POST"
    ∷ ftp_skip_pasv_ip true
    ∷ tcp_keep_alive true
    ∷ write_function callback
    ∷ []

-- With the text that rapidjson's `StringBuffer` has after the calls of its writer.
module _ {D Net : Type 0} (curl : Curl D Net) (text_of : List (Call D) → List ℕ) where
  pub post_curl : List (Call D) → Net → List (Option (Json D)) × Net
  unfolding options
  post_curl calls net = curl.perform (options write_cb_gla (text_of calls)) net

  pub set_seed : List (Call D) → Net → List (Option (Json D)) × Net
  unfolding options
  set_seed calls net = curl.perform (options write_cb_sets (text_of calls)) net

  pub session_log_in : List (Call D) → Net → List (Option (Json D)) × Net
  unfolding options
  session_log_in calls net = curl.perform (options write_cb_log_in (text_of calls)) net

-- ===== src/Rpc/Curl/Sent.antt =====
-- What the server of src/rpc_client.cpp receives.
use Prim.Native.String.{String}
use rokit_locator_qr_addon.Base.{
  ℕ, suc, ◌≡◌, ◌≢◌, refl, ap, Option, none, some, List, [], ◌∷◌, take, All, arith,
}
use rokit_locator_qr_addon.Rpc.Json.{Json}
use rokit_locator_qr_addon.Rpc.Writer.{Call}
use rokit_locator_qr_addon.Rpc.Curl.{
  Callback, write_cb_gla, write_cb_sets, write_cb_log_in, Setopt, url, custom_request, post_fields,
  post_field_size_large, http_header, write_function, Curl, strlen, options, post_curl, set_seed,
  session_log_in,
}

pub record Request : Type 0 where
  pub method : String
  pub url : String
  pub headers : List String
  pub body : List ℕ
  pub callback : Callback

-- The setting of a kind of option that counts: the last one.
abbrev pub setting : {A : Type 0} → (Setopt → Option A) → List Setopt → Option A
setting kind [] = none
setting kind (o ∷ os) = elim (setting kind os) [ none ↦ kind o | some a ↦ some a ]

abbrev pub method_of : Setopt → Option String
method_of (custom_request method) = some method
method_of _ = none

abbrev pub url_of : Setopt → Option String
url_of (url address) = some address
url_of _ = none

abbrev pub headers_of : Setopt → Option (List String)
headers_of (http_header headers) = some headers
headers_of _ = none

abbrev pub fields_of : Setopt → Option (List ℕ)
fields_of (post_fields text) = some text
fields_of _ = none

abbrev pub field_size_of : Setopt → Option ℕ
field_size_of (post_field_size_large n) = some n
field_size_of _ = none

abbrev pub callback_of : Setopt → Option Callback
callback_of (write_function callback) = some callback
callback_of _ = none

-- The request that options ask for: its body is as much of the text as the size says.
pub record Asks (os : List Setopt) (r : Request) : Type 0 where
  pub method : setting method_of os ≡ some r.method
  pub url : setting url_of os ≡ some r.url
  pub headers : setting headers_of os ≡ some r.headers
  pub callback : setting callback_of os ≡ some r.callback
  pub text : List ℕ
  pub size : ℕ
  pub fields : setting fields_of os ≡ some text
  pub field_size : setting field_size_of os ≡ some size
  pub body : r.body ≡ take size text

-- The transfer is one with the request that is asked for; the other options have no part in what the
-- server gets.
pub record IsCurl {D Net : Type 0} (curl : Curl D Net)
    (server : Request → Net → List (Option (Json D)) × Net) : Type 0 where
  pub performs :
      (os : List Setopt) (r : Request) (net : Net) → Asks os r → curl.perform os net ≡ server r net

abbrev pub json_post : Callback → List ℕ → Request
json_post callback body = record {
  method = "POST";
  url = "http://localhost:8080";
  headers = "Content-Type: application/json" ∷ [];
  body = body;
  callback = callback;
}

take-strlen : (text : List ℕ) → All (λ c. c ≢ 0) text → text ≡ take (strlen text) text
unfolding strlen
take-strlen [] h = refl
take-strlen (c ∷ text) h =
    let more : strlen (c ∷ text) ≡ suc (strlen text) = ground (arith, h.0) in
    rw more (ap (λ l. c ∷ l) (take-strlen text h.1))

options-Asks :
    (callback : Callback) (text : List ℕ)
    → All (λ c. c ≢ 0) text
    → Asks (options callback text) (json_post callback text)
unfolding options
options-Asks callback text h = record {
  method = refl;
  url = refl;
  headers = refl;
  callback = refl;
  text = text;
  size = strlen text;
  fields = refl;
  field_size = refl;
  body = take-strlen text h;
}

module _ {D Net : Type 0} {curl : Curl D Net}
    {server : Request → Net → List (Option (Json D)) × Net} (laws : IsCurl curl server)
    (text_of : List (Call D) → List ℕ) where
  -- If the text of a request has no zero in it, then with each of the three clients the server gets a
  -- POST with the whole text as JSON, and its answer goes to the callback of the client.
  pub clients_lem :
      (calls : List (Call D)) (net : Net)
      → All (λ c. c ≢ 0) (text_of calls)
      → (post_curl curl text_of calls net ≡ server (json_post write_cb_gla (text_of calls)) net)
        × (set_seed curl text_of calls net ≡ server (json_post write_cb_sets (text_of calls)) net)
        × (session_log_in curl text_of calls net
            ≡ server (json_post write_cb_log_in (text_of calls)) net)
  unfolding post_curl set_seed session_log_in
  clients_lem calls net h = (
    laws.performs _ _ net (options-Asks write_cb_gla _ h),
    laws.performs _ _ net (options-Asks write_cb_sets _ h),
    laws.performs _ _ net (options-Asks write_cb_log_in _ h),
  )

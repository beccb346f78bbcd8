-- ===== src/Rpc/Curl/Tests.antt =====
-- A request of the clients of src/rpc_client.cpp to a server that counts bytes.
use rokit_locator_qr_addon.Base.{
  ℕ, ◌≡◌, ◌≢◌, refl, Option, none, some, List, [], take, length, All, arith,
}
use rokit_locator_qr_addon.Base.Int.{ℤ}
use rokit_locator_qr_addon.Rpc.Json.{Json, codes}
use rokit_locator_qr_addon.Rpc.Writer.{Call}
use rokit_locator_qr_addon.Rpc.Curl.{
  write_cb_gla, write_cb_sets, write_cb_log_in, Setopt, Curl, post_curl, set_seed, session_log_in,
}
use rokit_locator_qr_addon.Rpc.Curl.Sent.{
  Request, setting, field_size_of, fields_of, Asks, IsCurl, json_post, clients_lem,
}

abbrev arrived : Option ℕ → Option (List ℕ) → ℕ
arrived (some n) (some text) = length (take n text)
arrived none text = 0
arrived (some n) none = 0

-- The state is the number of bytes of the last request.
abbrev curl : Curl ℤ ℕ
curl = record {
  perform = λ os net. ([], arrived (setting field_size_of os) (setting fields_of os));
}

abbrev server : Request → ℕ → List (Option (Json ℤ)) × ℕ
server r net = ([], length r.body)

performs :
    (os : List Setopt) (r : Request) (net : ℕ) → Asks os r → curl.perform os net ≡ server r net
performs os r net asks = rw (asks.fields, asks.field_size, asks.body) refl

curl-IsCurl : IsCurl curl server
curl-IsCurl = record { performs = performs }

-- Two bytes.
abbrev text_of : List (Call ℤ) → List ℕ
text_of calls = codes "{}"

no_zero : All (λ c. c ≢ 0) (codes "{}")
no_zero = ((λ e. omega arith), ((λ e. omega arith), tt))

clients_lem_example :
    (post_curl curl text_of [] 0 ≡ server (json_post write_cb_gla (codes "{}")) 0)
    × (set_seed curl text_of [] 0 ≡ server (json_post write_cb_sets (codes "{}")) 0)
    × (session_log_in curl text_of [] 0 ≡ server (json_post write_cb_log_in (codes "{}")) 0)
clients_lem_example = clients_lem curl-IsCurl text_of [] 0 no_zero

-- ===== src/Rpc.antt =====
-- The three JSON-RPC clients of src/rpc_client.cpp. rapidjson is a parameter in what it parses (a
-- reply is a JSON value or an error) and stands in the model by the calls of its `Writer`; curl is a
-- parameter in what the server answers. A text is the list of its character codes.
pub mod Json
pub mod Writer
pub mod Requests
pub mod Replies
pub mod Session
pub mod Curl
mod Tests
use rokit_locator_qr_addon.Base.{ℕ, List}

-- `RpcInfo` and `Account` of include/main_logic.h.
pub record RpcInfo : Type 0 where
  pub method : List ℕ
  pub id : ℕ

pub record Account : Type 0 where
  pub user_name : List ℕ
  pub pass_word : List ℕ

-- ===== src/Tests/Listeners.antt =====
-- src/server.rs: the theorems on a server that has started.
use Prim.Native.Nat.{ℕ}
use coap_rs.Common.{Option, none, some, [], ◌∷◌, Bytes, bytes_key}
use coap_rs.Coap.{Request, MessageType, Method}
use coap_rs.Server.Runs.{Server, from_listeners}
use coap_rs.Tests.Endpoints.{net, path}
use coap_rs.Tests.Servers.{passing}

-- A PUT from whoever sends.
abbrev put : ℕ → Request ℕ
put a = record {
  kind = MessageType.confirmable;
  method = Method.put;
  observe = none;
  message_id = 1;
  token = [];
  path = path;
  block2 = none;
  payload = 1 ∷ [];
  source = some a;
  response = none;
}

abbrev read_put : Bytes → ℕ → Option (Request ℕ)
read_put bytes a = some (put a)

abbrev started : Server net passing
started = from_listeners net passing 0

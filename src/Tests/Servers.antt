-- ===== src/Tests/Servers.antt =====
-- src/server.rs: the theorems on a server whose block handler passes everything on.
use Prim.Native.Nat.{ℕ}
use native.Mathlib.Decide.{ℕ_discrete}
use coap_rs.Common.{
  ◌≡◌, refl, true, false, none, some, [], ◌∷◌, bytes_same, bytes_key, lookup, insert, remove, ascii,
  length, ◌⊎◌,
}
use coap_rs.Coap.{Request, MessageType, Method}
use coap_rs.Observer.{ResourceItem, is_observing, recorded}
use coap_rs.Observer.Encode.{encode_coap_uint}
use coap_rs.Observer.Handler.{Handled, request_handler}
use coap_rs.Server.{
  BlockHandler, ServerCoapState, Intercepted, ok, intercept_request, after_blocks, prepared,
}
use coap_rs.Server.Interception.{intercept_request-forward, intercept_response-fetch}
use coap_rs.Tests.Endpoints.{net, plain, path, client, observed, observed-IsConsistent, blank}

abbrev pub passing : BlockHandler net
passing = record {
  State = ℕ;
  HandlingError = ℕ;
  intercept_request = λ request left. (ok false, (request, left));
  intercept_response = λ request left. (ok false, (request, left));
  apply_from_error = λ e request. request;
}

abbrev bypassed : ServerCoapState net passing
bypassed = record { observer = observed; block_handler = 0; disable_observe = true }

-- The observer fetches the second block of the resource.
abbrev fetch : Request ℕ
fetch = record {
  kind = MessageType.confirmable;
  method = Method.get;
  observe = none;
  message_id = 8;
  token = ascii "d";
  path = path;
  block2 = some (record { num = 1; more = false; size_exponent = 0 });
  payload = [];
  source = some 1;
  response = some blank;
}

abbrev passed : Intercepted ℕ
passed = ok false

intercept_request-forward_example :
    (passed ≡ ok false)
    × (◌≡◌ {A = ℕ} 0 0)
    × (((true ≡ true) × (observed ≡ observed) × (fetch ≡ fetch))
        ⊎ ((h : Handled net) × (request_handler net fetch client observed ≡ some h)
            × (h.forward ≡ true)
            × (observed ≡ h.observer)
            × (fetch ≡ h.request)))
unfolding intercept_request after_blocks
intercept_request-forward_example =
    intercept_request-forward net passing fetch client bypassed
      (record { state = bypassed; request = fetch; forward = true }) refl refl

intercept_response-fetch_example :
    (resource : ResourceItem) × (lookup path observed.resources ≡ some resource)
    × (prepared net passing true fetch bypassed ≡ record fetch {
      response = some (record blank {
        payload = resource.payload;
        etag = resource.etag ∷ [];
        size2 = encode_coap_uint (length resource.payload) ∷ [];
      });
    })
unfolding is_observing recorded lookup insert remove bytes_same ℕ_discrete
intercept_response-fetch_example =
    intercept_response-fetch net passing plain bypassed observed-IsConsistent fetch 1 blank refl
      refl refl refl

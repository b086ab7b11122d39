-- ===== src/Edhoc/Initiator/Serving.antt =====
-- src/edhoc/router.rs: the response of the route to an answered leg of an exchange. The route's
-- responses all have the content format of EDHOC.
use coap_rs.Common.{true, Bytes}
use coap_rs.Common.Results.{Result, ok, err}
use coap_rs.Coap.{Status}
use coap_rs.Edhoc.{EdhocError, CborDecoder, Printer, to_error_message}
use coap_rs.Edhoc.Initiator.{Response}

unfoldable pub edhoc_response : Status → Bytes → Response
edhoc_response status payload = record { status = status; is_edhoc = true; payload = payload }

module _ {E : Type 0} (decoder : CborDecoder) (printer : Printer E) where
  -- `edhoc_route_handler`, after `process_edhoc_message`.
  unfoldable pub edhoc_route_handler : Result (EdhocError E) Bytes → Response
  unfolding to_error_message edhoc_response
  edhoc_route_handler (ok payload) = edhoc_response Status.changed payload
  edhoc_route_handler (err e) =
      let (status, payload) = to_error_message decoder printer e in edhoc_response status payload

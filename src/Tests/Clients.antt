-- ===== src/Tests/Clients.antt =====
-- src/client.rs: the theorems on transfers of a few blocks of four bytes.
use Prim.Native.Nat.{ℕ}
use native.Mathlib.Decide.{ℕ_discrete}
use coap_rs.Common.{
  ◌≡◌, refl, Bool, true, false, Option, some, List, [], ◌∷◌, ◌++◌, Bytes, arith, ascii, inr, inl,
  bytes_same,
}
use coap_rs.Coap.{MessageType, MessageClass, Status, Method}
use coap_rs.Client.{get_block2_option, Message, Codec, ok, err, ErrorKind, first}
use coap_rs.Client.Download.{
  Exchange, empty_state, receive, receive_with_etag_validation, handle_block, handle_blockwise,
  finish,
}
use coap_rs.Client.Download.Reassembly.{IsBlock, receive-payload}
use coap_rs.Client.Download.Order.{receive-out_of_order, receive_with_etag_validation-ok}
use coap_rs.Client.Upload.{judge, judge_block, conclude, block_request, send_blocks, is_continue}
use coap_rs.Client.Upload.Delivery.{payloads, send_blocks-Carries, send_blocks-final}

-- Four bytes in a block, and a splice at the end of what is there.
abbrev pub codec : Codec
codec = record {
  block_size = λ b. 4;
  block_new = λ num more size. some (record { num = num; more = more; size_exponent = 0 });
  splice = λ old from to new limit. some (old ++ new);
  checked = true;
}

abbrev pub ask : Message
ask = record {
  kind = MessageType.confirmable;
  code = MessageClass.request Method.get;
  message_id = 1;
  token = ascii "a";
  block1 = [];
  block2 = [];
  etag = [];
  payload = [];
}

abbrev pub part : ℕ → Bool → Bytes → Message
part num more payload = record ask {
  code = MessageClass.response Status.content;
  block2 = some (record { num = num; more = more; size_exponent = 0 }) ∷ [];
  etag = (7 ∷ []) ∷ [];
  payload = payload;
}

abbrev pub text : Bytes
text = ascii "CoAP!"

pub part-IsBlock : IsBlock codec 4 text 0 (part 0 true (ascii "CoAP"))
unfolding get_block2_option
part-IsBlock = record {
  block = record { num = 0; more = true; size_exponent = 0 };
  named = refl;
  number = refl;
  sized = refl;
  part = refl;
  followed = refl;
}

pub last-IsBlock : IsBlock codec 4 text 1 (part 1 false (ascii "!"))
unfolding get_block2_option
last-IsBlock = record {
  block = record { num = 1; more = false; size_exponent = 0 };
  named = refl;
  number = refl;
  sized = refl;
  part = refl;
  followed = refl;
}

receive-payload_example :
    (m : Message) × (receive codec
        (some (part 1 false (ascii "!")) ∷ [])
        5
        (record { request = ask; response = part 0 true (ascii "CoAP"); state = empty_state })
      ≡ ok m)
    × (m.payload ≡ text)
receive-payload_example =
    receive-payload codec 4 text (λ old new h. refl) (λ k h. omega (arith, h))
      (some (part 1 false (ascii "!")) ∷ []) 5 ask (part 0 true (ascii "CoAP"))
      (part-IsBlock, inr (last-IsBlock, omega arith))

-- The second block is passed over.
receive-out_of_order_example :
    receive codec
      (some (part 2 false (ascii "!")) ∷ [])
      5
      (record { request = ask; response = part 0 true (ascii "CoAP"); state = empty_state })
    ≡ err ErrorKind.interrupted
unfolding get_block2_option
receive-out_of_order_example =
    receive-out_of_order codec 4 text (λ old new h. refl) (λ k h. omega (arith, h))
      (some (part 2 false (ascii "!")) ∷ []) 5 ask (part 0 true (ascii "CoAP"))
      (
        part-IsBlock,
        omega arith,
        inl (record { num = 2; more = false; size_exponent = 0 }, refl, λ e. omega (arith, e)),
      )

abbrev alone : Exchange
alone = record { request = ask; response = part 0 false (ascii "CoAP"); state = empty_state }

receive_with_etag_validation-ok_example :
    (receive codec [] 5 alone ≡ ok alone.response) × (first alone.response.etag ≡ some (7 ∷ []))
unfolding receive receive_with_etag_validation handle_blockwise handle_block finish
    get_block2_option bytes_same ℕ_discrete
receive_with_etag_validation-ok_example =
    receive_with_etag_validation-ok codec [] (7 ∷ []) 5 alone alone.response refl

abbrev answer : ℕ → Bool → Status → Message
answer num more status = record ask {
  code = MessageClass.response status;
  block1 = some (record { num = num; more = more; size_exponent = 0 }) ∷ [];
}

abbrev parts : List Bytes
parts = ascii "CoAP" ∷ ascii "!" ∷ []

abbrev answers : List (Option Message)
answers = some (answer 0 true Status.continue) ∷ some (answer 1 false Status.changed) ∷ []

send_blocks-Carries_example :
    (rest : List Bytes) × (payloads
          (send_blocks codec 4 0 5 parts answers (err ErrorKind.other) ask).requests
        ++ rest
      ≡ parts)
send_blocks-Carries_example =
    send_blocks-Carries codec 4 parts 0 5 answers (err ErrorKind.other) ask

send_blocks-final_example : is_continue (answer 1 false Status.changed).code ≡ false
unfolding send_blocks judge judge_block conclude block_request
send_blocks-final_example =
    send_blocks-final codec 4 (ascii "CoAP") (ascii "!" ∷ []) 0 5 answers (err ErrorKind.other) ask
      (answer 1 false Status.changed) refl

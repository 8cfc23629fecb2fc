-- ===== src/Coap/Cloud/Runs.antt =====
-- The theorems on the cloud client's requests at a concrete message.
use nu_maker_mbed_aliyun_io.Base.{ℕ, ◌≡◌, ◌≢◌, refl, ap, none, some, List, [], ◌∷◌, length, pos}
use nu_maker_mbed_aliyun_io.Coap.Message.{MsgHeader, Message}
use nu_maker_mbed_aliyun_io.Coap.Cloud.{
  CloudContext, cloud_node, mark_acked, cycle_nodes, cycle_node, cycle_due, is_resent, resent,
  is_given_up,
}
use nu_maker_mbed_aliyun_io.Coap.Cloud.Lifetime.{cycles, cycles-cloud_node, cycles-acked_request}

abbrev request : Message
request = record {
  header = record { version = 1; type = 0; tokenlen = 1; code = 1; msgid = 77 };
  token = 9 ∷ [];
  options = [];
  optdelta = 0;
  payloadlen = 0;
  payload = none;
  handler = none;
  resp = some 5;
  user = none;
  keep = pos 0;
}

abbrev answer : MsgHeader
answer = record { version = 1; type = 2; tokenlen = 1; code = 0x45; msgid = 77 }

abbrev empty_context : CloudContext
empty_context = record { message_id = 1; count = 0; maxcount = 5; sendlist = [] }

abbrev text : List ℕ
text = 0x41 ∷ 1 ∷ 0 ∷ 77 ∷ 9 ∷ []

cycles-cloud_node_example :
    (request.header.type ≡ 0
      → (cycles 17 (cloud_node request text ∷ []) ≡ ([], text ∷ text ∷ text ∷ []))
        × (length (cycles 16 (cloud_node request text ∷ [])).0 ≡ 1))
    × (request.header.type ≢ 0
        → (cycles 11 (cloud_node request text ∷ []) ≡ ([], []))
          × (length (cycles 10 (cloud_node request text ∷ [])).0 ≡ 1))
cycles-cloud_node_example = cycles-cloud_node request text

-- After four cycles the request was written again once, and is on the list.
still_there : (cycles 4 (cloud_node request text ∷ [])).0 ≢ []
unfolding cycles cloud_node cycle_nodes cycle_node cycle_due is_resent resent is_given_up
still_there e = cc (ap (λ ns. length ns) e)

cycles-acked_request_example :
    ((cycles 12 (mark_acked 77 (cycles 4 (cloud_node request text ∷ [])).0)).1 ≡ [])
    × (length (cycles 12 (mark_acked 77 (cycles 4 (cloud_node request text ∷ [])).0)).0 ≡ 1)
cycles-acked_request_example = cycles-acked_request 4 12 request text refl still_there

-- ===== src/Coap/SendList/Runs.antt =====
-- The theorems on the send list at concrete inputs.
use nu_maker_mbed_aliyun_io.Base.{
  ◌+◌, ◌≡◌, refl, arith, true, false, none, some, List, [], ◌∷◌, pos,
}
use nu_maker_mbed_aliyun_io.Coap.Message.{Message}
use nu_maker_mbed_aliyun_io.Coap.SendList.{SendNode, SendList, send_node, max_retry_count}
use nu_maker_mbed_aliyun_io.Coap.SendList.Counts.{IsCounted}
use nu_maker_mbed_aliyun_io.Coap.SendList.Cycle.{rounds, rounds-send_node}
use nu_maker_mbed_aliyun_io.Coap.SendList.Session.{
  Call, add, cancel, acknowledge, respond, cycle, run, run-empty-IsCounted,
}

abbrev empty_list : SendList
empty_list = record { nodes = []; count = 0; maxcount = 2 }

abbrev ping : Message
ping = record {
  header = record { version = 1; type = 0; tokenlen = 2; code = 1; msgid = 7 };
  options = [];
  optdelta = 0;
  token = 1 ∷ 2 ∷ 0 ∷ 0 ∷ 0 ∷ 0 ∷ 0 ∷ 0 ∷ [];
  payload = none;
  payloadlen = 0;
  handler = none;
  resp = none;
  user = none;
  keep = pos 0;
}

abbrev calls : List Call
calls =
    add true false 0 1 ping [] 0
    ∷ add true false 0 2 ping [] 0
    ∷ add true false 0 3 ping [] 0
    ∷ cycle 700
    ∷ acknowledge 7
    ∷ respond ping.header ping.token
    ∷ cancel 7
    ∷ []

run-empty-IsCounted_example : (l' : SendList) × (run calls empty_list ≡ some l') × IsCounted l'
run-empty-IsCounted_example = run-empty-IsCounted calls empty_list refl refl (omega arith)

abbrev waiting : SendNode
waiting = record (send_node false 100 1 ping (0x42 ∷ []) 1) { retrans_count = 0 }

abbrev waiting_list : SendList
waiting_list = record {
  nodes = waiting ∷ send_node false 100 2 ping [] 0 ∷ [];
  count = 2;
  maxcount = 4;
}

rounds-send_node_example :
    (rounds (650 ∷ 700 ∷ 2000 ∷ []) (send_node false 0 1 ping [] 0)).0.retrans_count
      + (rounds (650 ∷ 700 ∷ 2000 ∷ []) (send_node false 0 1 ping [] 0)).1
    ≡ max_retry_count
rounds-send_node_example = rounds-send_node (650 ∷ 700 ∷ 2000 ∷ []) false 0 1 ping [] 0

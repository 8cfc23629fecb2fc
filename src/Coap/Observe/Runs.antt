-- ===== src/Coap/Observe/Runs.antt =====
-- The theorems on observers at concrete inputs, with the first bytes of a text as its digest.
use nu_maker_mbed_aliyun_io.Base.{
  ℕ, ◌≡◌, refl, arith, true, false, none, some, List, [], ◌∷◌, ◌++◌, length, pos, replicate, All,
}
use nu_maker_mbed_aliyun_io.Coap.Message.{
  Message, uint_option_get, option_present, uint_value, success,
}
use nu_maker_mbed_aliyun_io.Coap.SendList.{SendNode}
use nu_maker_mbed_aliyun_io.Coap.Resource.{Resource, path_normal}
use nu_maker_mbed_aliyun_io.Coap.Observe.{Observer, ObserverList, obs_server_init, option_observe}
use nu_maker_mbed_aliyun_io.Coap.Observe.Client.{
  ObservableList, is_watched, obs_client_init, obs_client_add, obs_client_delete,
}
use nu_maker_mbed_aliyun_io.Coap.Observe.Send.{Outside, Sender}
use nu_maker_mbed_aliyun_io.Coap.Observe.Notify.{Notice, Context}
use nu_maker_mbed_aliyun_io.Coap.Observe.Session.{
  IsRequest, IsServed, Call, register, notify, all_delete, run, run-init-IsServed,
}
use nu_maker_mbed_aliyun_io.Coap.Observe.Respond.{Reply}
use nu_maker_mbed_aliyun_io.Coap.Observe.Watched.{
  SameToken, IsFirst, Calls, tell, obs_client-Watches,
}

abbrev digest : List ℕ → List ℕ
digest text = text ++ replicate 16 1

-- "/sys"
abbrev sys : List ℕ
sys = b'/' ∷ b's' ∷ b'y' ∷ b's' ∷ []

abbrev sys_resource : Resource
sys_resource = record {
  permission = 1;
  callback = some 7;
  ctype = 0;
  maxage = 60;
  path = sys ++ 1 ∷ [];
  filter_path = [];
  path_type = path_normal;
}

abbrev table : List Resource
table = sys_resource ∷ []

-- A GET with the token 5, 6 and the observe option with the given bytes.
abbrev get_with : List ℕ → Message
get_with bytes = record {
  header = record { version = 1; type = 0; tokenlen = 2; code = 1; msgid = 9 };
  token = 5 ∷ 6 ∷ replicate 6 0;
  options = record { num = 6; len = length bytes; val = bytes } ∷ [];
  optdelta = 6;
  payloadlen = 0;
  payload = none;
  handler = none;
  resp = none;
  user = none;
  keep = pos 0;
}

abbrev outside : Outside
outside = record {
  alloc = true;
  alloc_node = true;
  alloc_option = λ n. true;
  tick = 100;
  is_multicast = λ remote. false;
  write = λ remote bytes. length bytes;
}

abbrev sender : Sender
sender = record {
  sendlist = record { nodes = []; count = 0; maxcount = 8 };
  obsclient = obs_client_init 8;
}

abbrev context : Context
context = record { message_id = some 20; sender = sender }

abbrev notice : Notice
notice = record { payload = some (1 ∷ 2 ∷ []); payloadlen = 2; encrypt = none }

get-IsRequest : (bytes : List ℕ) → IsRequest (get_with bytes)
get-IsRequest bytes = omega arith

abbrev served : ObserverList
served = obs_server_init 2

abbrev calls : List Call
calls =
    register true 0 table sys 40 (get_with [])
    ∷ notify (λ k. outside) (get_with []) table context sys notice
    ∷ all_delete 40
    ∷ []

run-init-IsServed_example : IsServed (run digest calls (obs_server_init 2))
run-init-IsServed_example = run-init-IsServed digest calls 2 (get-IsRequest [], (tt, (tt, tt)))

ends : uint_option_get (get_with (1 ∷ [])).options option_observe 0 ≡ (success, 1)
unfolding uint_option_get uint_value
ends = refl

abbrev reply : Reply
reply = record { buff = 3 ∷ []; len = 1; callback = none; qos = 0 }

abbrev observer : Observer
observer = record {
  remote = 40;
  token = 5 ∷ 6 ∷ replicate 6 0;
  tokenlen = 2;
  ctype = 50;
  resource_of_interest = 0;
  observer_sequence_num = 3;
  msg_type = 0;
}

abbrev observed : ObserverList
observed = record { observers = observer ∷ []; count = 1; maxcount = 2 }

-- The request that waits for the first response.
abbrev waiting : SendNode
waiting = record {
  header = (get_with []).header;
  retrans_count = 8;
  token = 5 ∷ 6 ∷ replicate 6 0;
  timeout = 700;
  timeout_val = 600;
  msglen = 6;
  handler = some 11;
  remote = 40;
  user = some 12;
  message = [];
  acked = 0;
  keep = 0;
}

abbrev watched : ObservableList
watched = obs_client_init 2

present : (bytes : List ℕ) → option_present (get_with bytes).options option_observe ≡ success
unfolding option_present
present bytes = refl

get-IsFirst : IsFirst true watched (get_with (2 ∷ []))
unfolding is_watched
get-IsFirst = record {
  observing = present (2 ∷ []);
  unwatched = refl;
  token_array = refl;
  tokenlen_max = omega arith;
  token_given = omega arith;
  room = omega arith;
  memory = refl;
}

get-SameToken : (a b : List ℕ) → SameToken (get_with a) (get_with b)
get-SameToken a b = record { present = omega arith; same_len = refl; same_token = refl }

abbrev late : ℕ × Message
late = (40, get_with (3 ∷ []))

obs_client-Watches_example :
    let l1 = (obs_client_add true watched (get_with (2 ∷ [])) 40 (some waiting)).0 in
    let (l2, calls) = tell true l1 (late ∷ []) in
    (length calls ≡ 1)
    × All (Calls waiting) calls
    × (obs_client_delete l2 (get_with (1 ∷ [])) ≡ watched)
    × (obs_client_add true (obs_client_delete l2 (get_with (1 ∷ []))) (get_with (3 ∷ [])) 40 none
        ≡ (watched, none))
obs_client-Watches_example =
    obs_client-Watches true watched (get_with (2 ∷ [])) (get_with (1 ∷ [])) (get_with (3 ∷ [])) 40
      40 waiting (late ∷ []) get-IsFirst (omega arith)
      ((get-SameToken (2 ∷ []) (3 ∷ []), present (3 ∷ [])), tt) (get-SameToken (2 ∷ []) (1 ∷ []))
      refl (present (1 ∷ [])) ends (get-SameToken (2 ∷ []) (3 ∷ []), present (3 ∷ []))

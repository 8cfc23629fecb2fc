-- ===== src/Coap/Observe/Heard.antt =====
-- A registration followed by notifications, and the request that should end an observation.
use nu_maker_mbed_aliyun_io.Base.{ℕ, ◌≡◌, some, List, take, get_elem?, ◌⊎◌}
use nu_maker_mbed_aliyun_io.Coap.Message.{Message, success}
use nu_maker_mbed_aliyun_io.Coap.Resource.{Resource}
use nu_maker_mbed_aliyun_io.Coap.Observe.{Observer, obj_already_exist}
use nu_maker_mbed_aliyun_io.Coap.Observe.Notify.{Notice, Sent}
use nu_maker_mbed_aliyun_io.Coap.Observe.Packet.{packet_of}
use nu_maker_mbed_aliyun_io.Coap.Observe.Notified.{watchers}

-- The peer observes the resource with the token of the request.
pub record IsThere (place remote : ℕ) (request : Message) (os : List Observer) : Type 0 where
  pub at : ℕ
  pub observer : Observer
  pub stands : get_elem? (watchers place os) at ≡ some observer
  pub by : observer.remote ≡ remote
  pub with_token :
      take observer.tokenlen observer.token ≡ take request.header.tokenlen request.token

-- COAP_SUCCESS or COAP_ERROR_OBJ_ALREADY_EXIST
abbrev pub IsTaken : ℕ → Type 0
IsTaken ret = (ret ≡ success) ⊎ (ret ≡ obj_already_exist)

-- Among the messages is one to the peer, with the token of the request and the payload, that is handed
-- to the network.
pub record IsHeard (remote : ℕ) (request : Message) (n : Notice) (out : List Sent) : Type 0 where
  pub at : ℕ
  pub sent : Sent
  pub stands : get_elem? out at ≡ some sent
  pub to : sent.remote ≡ remote
  pub with_token :
      take sent.message.header.tokenlen sent.message.token
      ≡ take request.header.tokenlen request.token
  pub with_payload : sent.message.payload ≡ n.payload
  pub with_packet : sent.packet ≡ some (packet_of sent.message)

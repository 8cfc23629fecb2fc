-- ===== src/Coap/Observe/Respond.antt =====
-- eng/coap/server/CoAPServer.c: CoAPServerResp_send answers a request, and takes its sender among the
-- observers where it asks for that. The parameters are taken to be given, and the context is the
-- server's.
use nu_maker_mbed_aliyun_io.Base.{ℕ, Bool, ◌&&◌, ◌==◌, if◌then◌else◌, Option, none, some, List}
use nu_maker_mbed_aliyun_io.Coap.Message.{
  Message, success, message_init, message_type_set, message_code_set, message_id_set,
  message_token_set, message_payload_set, uint_option_get,
}
use nu_maker_mbed_aliyun_io.Coap.Resource.{Resource}
use nu_maker_mbed_aliyun_io.Coap.Observe.{ObserverList, option_observe, ct_app_json, obs_server_add}
use nu_maker_mbed_aliyun_io.Coap.Observe.Send.{Outside, Sender, code_205, message_send}
use nu_maker_mbed_aliyun_io.Coap.Observe.Notify.{Sent, option_content_format, add_number}
use mathlib.Core.Option

-- What is answered: the text with its length, the handler of the response, and the quality of service.
pub record Reply : Type 0 where
  pub buff : List ℕ
  pub len : ℕ
  pub callback : Option ℕ
  pub qos : ℕ

abbrev set_handler : Option ℕ → Message → Message
set_handler callback m = record m { handler = callback }

-- The response up to its options.
unfoldable pub response_head : Message → Message → Reply → Option Message
response_head memory request reply =
    let m = (message_init (some memory)).0 in
    let m = (message_type_set m (if reply.qos == 0 then 1 else 0)).0 in
    let m = (message_code_set m code_205).0 in
    let m = (message_id_set m request.header.msgid).0 in
    let m = (message_token_set m (some request.token) request.header.tokenlen).0 in
    Option.map (set_handler reply.callback) m

-- Whether the request asks to observe; the variable is set to 0 before.
abbrev pub asks_to_observe : Message → Bool
asks_to_observe request =
    let (ret, observe) = uint_option_get request.options option_observe 0 in
    ret == success && observe == 0

unfoldable pub response : Outside → Message → Message → Reply → Option Message
response w memory request reply =
    let m = response_head memory request reply in
    let m = if asks_to_observe request then add_number w option_observe 0 m else m in
    let m = add_number w option_content_format ct_app_json m in
    (message_payload_set m (some reply.buff) reply.len).0

-- CoAPServerResp_send: the observers, the lists of the sender, the status and what is sent. `alloc` and
-- `stored` are those of CoAPObsServer_add.
unfoldable pub server_resp_send :
    (List ℕ → List ℕ)
    → Outside
    → Message
    → Bool
    → ℕ
    → List Resource
    → ObserverList
    → Sender
    → List ℕ
    → ℕ
    → Message
    → Reply
    → ObserverList × Sender × ℕ × Option Sent
server_resp_send md5 w memory alloc stored rs l s paths remote request reply =
    let l' =
      if asks_to_observe request
      then (obs_server_add md5 alloc stored rs l paths remote request).0
      else l in
    elim (response w memory request reply) [
      | none ↦ (l', s, success, none)
      | some m ↦
          let (s', ret, packet) = message_send w s remote m in
          (l', s', ret, some (record { remote = remote; message = m; packet = packet }))
    ]

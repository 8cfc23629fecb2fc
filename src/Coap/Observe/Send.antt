-- ===== src/Coap/Observe/Send.antt =====
-- eng/coap/server/CoAPMessage.c: CoAPMessage_send writes a message and keeps it for retransmission.
-- The network is a function: the number of bytes that a write to an address takes.
use nu_maker_mbed_aliyun_io.Base.{
  ℕ, ◌+◌, ◌-◌, Bool, true, ◌&&◌, ◌||◌, not, ltb, leb, ◌==◌, if◌then◌else◌, Option, none, some, List,
  ℤ, pos, negsuc,
}
use nu_maker_mbed_aliyun_io.Base.Bits.{u16}
use nu_maker_mbed_aliyun_io.Coap.Message.{MsgHeader, Message, success, null_error}
use nu_maker_mbed_aliyun_io.Coap.Serialize.{message_length, serialize_message}
use nu_maker_mbed_aliyun_io.Coap.SendList.{SendList, list_add, data_size_error}
use nu_maker_mbed_aliyun_io.Coap.Observe.Client.{ObservableList, obs_client_delete}

abbrev pub max_pdu_len : ℕ
max_pdu_len = 1280

abbrev pub write_failed : ℕ
write_failed = 266

-- COAP_MSG_CODE_205_CONTENT
abbrev pub code_205 : ℕ
code_205 = 0x45

abbrev pub is_req : MsgHeader → Bool
is_req h = leb 1 h.code && ltb h.code 32

abbrev pub is_con_resp : MsgHeader → Bool
is_con_resp h = h.code == code_205 && h.type == 0

-- A value of `int` in an `unsigned short`.
abbrev as_u16 : ℤ → ℕ
as_u16 (pos n) = u16 n
as_u16 (negsuc n) = u16 (0x10000 - u16 (n + 1))

-- What surrounds a call: the outcomes of the allocations, those of an option's block by the option's
-- number, the clock, the test for a multicast address, and the network.
pub record Outside : Type 0 where
  pub alloc : Bool
  pub alloc_node : Bool
  pub alloc_option : ℕ → Bool
  pub tick : ℕ
  pub is_multicast : ℕ → Bool
  pub write : ℕ → List ℕ → ℕ

-- The lists of the context that a call changes.
pub record Sender : Type 0 where
  pub sendlist : SendList
  pub obsclient : ObservableList

-- What follows the write of `written` bytes of the buffer.
unfoldable pub send_written : Outside → Sender → ℕ → Message → List ℕ → ℕ → Sender × ℕ
send_written w s remote m buff msglen =
    if not (msglen == u16 (w.write remote buff))
    then (s, write_failed)
    else if not (is_req m.header || is_con_resp m.header)
    then (s, success)
    else let (l, ret) =
        list_add w.alloc_node (w.is_multicast remote) w.tick s.sendlist remote m buff msglen in
      (record s { sendlist = l }, ret)

-- CoAPMessage_send: the lists, the status, and the bytes handed to the network.
unfoldable pub message_send : Outside → Sender → ℕ → Message → Sender × ℕ × Option (List ℕ)
message_send w s remote m =
    if ltb max_pdu_len (message_length m)
    then (s, data_size_error, none)
    else if not w.alloc
    then (s, null_error, none)
    else let (stored, buff) = serialize_message (some m) true (message_length m) in
      let s' = record s { obsclient = obs_client_delete s.obsclient m } in
      let (s'', ret) = send_written w s' remote m buff (as_u16 stored) in (s'', ret, some buff)

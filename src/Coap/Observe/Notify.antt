-- ===== src/Coap/Observe/Notify.antt =====
-- eng/coap/server/CoAPObserve.c: CoAPObsServer_notify sends the state of a resource to its observers.
-- `w n` is what surrounds the send number n of a call, and `memory` what the message holds before it is
-- set up. The encryption is a function: its status, and the message and the text that it leaves.
use nu_maker_mbed_aliyun_io.Base.{
  ℕ, suc, ◌+◌, ◌==◌, if◌then◌else◌, Option, none, some, List, [], ◌∷◌, ◌++◌, length, get_elem?,
}
use nu_maker_mbed_aliyun_io.Base.Bits.{u32}
use nu_maker_mbed_aliyun_io.Coap.Message.{
  Message, success, message_init, message_type_set, message_code_set, message_id_set,
  message_user_data_set, message_token_set, message_payload_set, uint_option_add,
}
use nu_maker_mbed_aliyun_io.Coap.SendList.{message_id_gen}
use nu_maker_mbed_aliyun_io.Coap.Resource.{Resource}
use nu_maker_mbed_aliyun_io.Coap.Observe.{Observer, ObserverList, option_observe, by_path_place}
use nu_maker_mbed_aliyun_io.Coap.Observe.Client.{option_maxage}
use nu_maker_mbed_aliyun_io.Coap.Observe.Send.{Outside, Sender, code_205, message_send}
use mathlib.Core.Option

abbrev pub option_content_format : ℕ
option_content_format = 12

-- The payload pointer with its length, and the encryption.
pub record Notice : Type 0 where
  pub payload : Option (List ℕ)
  pub payloadlen : ℕ
  pub encrypt : Option (ℕ → Message → ℕ × Message × Option (List ℕ))

-- The context's counter of ids and the lists that a send changes.
pub record Context : Type 0 where
  pub message_id : Option ℕ
  pub sender : Sender

pub record Sent : Type 0 where
  pub remote : ℕ
  pub message : Message
  pub packet : Option (List ℕ)

abbrev pub add_number : Outside → ℕ → ℕ → Option Message → Option Message
add_number w optnum value =
    Option.map (λ m. (uint_option_add (w.alloc_option optnum) m optnum value).0)

abbrev pub clear_handler : Message → Message
clear_handler m = record m { handler = none }

-- The message of an observer up to its payload.
unfoldable pub notification : Outside → Message → Observer → ℕ → ℕ → Option Message
notification w memory o maxage id =
    let m = (message_init (some memory)).0 in
    let m = (message_type_set m o.msg_type).0 in
    let m = (message_code_set m code_205).0 in
    let m = (message_id_set m id).0 in
    let m = Option.map clear_handler m in
    let m = (message_user_data_set m (some o.resource_of_interest)).0 in
    let m = (message_token_set m (some o.token) o.tokenlen).0 in
    let m = add_number w option_observe o.observer_sequence_num m in
    let m = add_number w option_content_format o.ctype m in add_number w option_maxage maxage m

abbrev len_of : Option (List ℕ) → ℕ
len_of none = 0
len_of (some bytes) = length bytes

unfoldable pub set_payload : Notice → ℕ → Message → Option Message
set_payload n remote m = elim n.encrypt [
  | none ↦ (message_payload_set (some m) n.payload n.payloadlen).0
  | some encrypt ↦
      let (ret, m', dest) = encrypt remote m in
      if ret == success then (message_payload_set (some m') dest (len_of dest)).0 else some m'
]

abbrev pub bump_number : Observer → Observer
bump_number o = record o { observer_sequence_num = u32 (o.observer_sequence_num + 1) }

-- One round of the loop on an observer of the resource: the context, the status and what is sent.
unfoldable pub notify_observer :
    Outside → Message → Notice → ℕ → Observer → Context → Context × ℕ × List Sent
notify_observer w memory n maxage o c =
    let (id, next) = message_id_gen c.message_id in
    elim (Option.bind (notification w memory o maxage id) (set_payload n o.remote)) [
      | none ↦ (record c { message_id = next }, success, [])
      | some m ↦
          let (s, ret, packet) = message_send w c.sender o.remote m in
          (
            record { message_id = next; sender = s },
            ret,
            record { remote = o.remote; message = m; packet = packet } ∷ [],
          )
    ]

-- The loop: the observers, the context, the last status, and what is sent, in order.
unfoldable pub notify_from :
    (ℕ → Outside)
    → Message
    → Notice
    → ℕ
    → ℕ
    → List Observer
    → Context
    → ℕ
    → List Observer × Context × ℕ × List Sent
notify_from w memory n place maxage [] c ret = ([], c, ret, [])
notify_from w memory n place maxage (o ∷ os) c ret =
    let hit = o.resource_of_interest == place in
    let (c', ret', out) = if hit then notify_observer (w 0) memory n maxage o c else (c, ret, []) in
    let (os', c'', ret'', out') = notify_from (λ k. w (suc k)) memory n place maxage os c' ret' in
    ((if hit then bump_number o else o) ∷ os', c'', ret'', out ++ out')

-- CoAPObsServer_notify: the observers, the context, the status and what is sent.
unfoldable pub obs_server_notify :
    (List ℕ → List ℕ)
    → (ℕ → Outside)
    → Message
    → List Resource
    → ObserverList
    → Context
    → List ℕ
    → Notice
    → ObserverList × Context × ℕ × List Sent
obs_server_notify md5 w memory rs l c path n = elim (by_path_place md5 rs path) [
  | none ↦ (l, c, success, [])
  | some place ↦ elim (get_elem? rs place) [
    | none ↦ (l, c, success, [])
    | some r ↦
        let (os, c', ret, out) = notify_from w memory n place r.maxage l.observers c success in
        (record l { observers = os }, c', ret, out)
  ]
]

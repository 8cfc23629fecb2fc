-- ===== src/Coap/Cloud.antt =====
-- eng/coap/client/Cloud_CoAPMessage.c: the requests of the cloud client that wait for a response, from
-- sending to acknowledgement, retransmission and time-out. Time is counted in calls of
-- Cloud_CoAPMessage_cycle. Allocations and results of the network are arguments; a handler is a number.
-- What a cycle writes to the network, and the node whose handler is called, are results.
pub mod Lifetime
pub mod Counted
mod Runs
use nu_maker_mbed_aliyun_io.Base.{
  same_bytes, ℕ, zero, suc, ◌+◌, ◌-◌, ◌*◌, ◌/◌, ◌%◌, ◌^◌, Bool, true, false, ◌&&◌, ◌||◌, not, ltb,
  leb, ◌==◌, if◌then◌else◌, Option, none, some, List, [], ◌∷◌, ◌++◌, length, take, drop, replicate,
  ℤ, pos, negsuc,
}
use nu_maker_mbed_aliyun_io.Base.Bits.{u8, u16}
use nu_maker_mbed_aliyun_io.Coap.Message.{MsgHeader, Message, max_token_len}

abbrev pub cloud_max_retry_count : ℕ
cloud_max_retry_count = 4

abbrev pub cloud_ack_timeout : ℕ
cloud_ack_timeout = 2

abbrev pub max_transmission_span : ℕ
max_transmission_span = 10

-- Cloud_CoAPSendNode; the array of the token is filled from the message's token.
pub record CloudNode : Type 0 where
  pub user : Option ℕ
  pub msgid : ℕ
  pub acked : Bool
  pub tokenlen : ℕ
  pub token : List ℕ
  pub retrans_count : ℕ
  pub timeout : ℕ
  pub timeout_val : ℕ
  pub message : List ℕ
  pub resp : Option ℕ

-- Cloud_CoAPSendList and the counter of message ids, of Cloud_CoAPContext.
pub record CloudContext : Type 0 where
  pub message_id : ℕ
  pub count : ℕ
  pub maxcount : ℕ
  pub sendlist : List CloudNode

-- Cloud_CoAPMessageId_gen: the id, and the context.
unfoldable pub cloud_message_id_gen : CloudContext → ℕ × CloudContext
cloud_message_id_gen c =
    if 0xffff == c.message_id
    then (1, c)
    else (c.message_id, record c { message_id = u16 (c.message_id + 1) })

-- The node that Cloud_CoAPMessageList_add fills in.
unfoldable pub cloud_node : Message → List ℕ → CloudNode
cloud_node m buffer = record {
  user = m.user;
  msgid = m.header.msgid;
  acked = false;
  tokenlen = m.header.tokenlen;
  token = take m.header.tokenlen m.token;
  retrans_count = if m.header.type == 0 then 0 else cloud_max_retry_count;
  timeout = if m.header.type == 0 then cloud_ack_timeout else max_transmission_span;
  timeout_val = cloud_ack_timeout;
  message = buffer;
  resp = m.resp;
}

-- Cloud_CoAPMessageList_add: whether it returns 0, and the context. Its test of the room compares the
-- addresses of `count` and `maxcount`, which stand in this order in the struct: it never holds.
unfoldable pub cloud_list_add : Bool → Message → List ℕ → CloudContext → Bool × CloudContext
cloud_list_add alloc m buffer c = if not alloc then (false, c) else (
  true,
  record c { count = u8 (c.count + 1); sendlist = c.sendlist ++ (cloud_node m buffer ∷ []) },
)

-- Cloud_CoAPReqMsg and Cloud_CoAPCONRespMsg
abbrev pub is_tracked : MsgHeader → Bool
is_tracked h = leb 1 h.code && ltb h.code 32 || h.code == 0x45 && h.type == 0

-- Cloud_CoAPMessage_send once the message is serialized to `buffer`; `written` is whether the network
-- takes it.
unfoldable pub cloud_send : Bool → Bool → Message → List ℕ → CloudContext → CloudContext
cloud_send written alloc m buffer c =
    if written && is_tracked m.header then (cloud_list_add alloc m buffer c).1 else c

-- The loop of Cloud_CoAPAckMessage_handle.
unfoldable pub mark_acked : ℕ → List CloudNode → List CloudNode
mark_acked msgid [] = []
mark_acked msgid (n ∷ ns) =
    let rest = mark_acked msgid ns in
    if n.msgid == msgid then record n { acked = true } ∷ ns else n ∷ rest

unfoldable pub cloud_ack_handle : ℕ → CloudContext → CloudContext
cloud_ack_handle msgid c = record c { sendlist = mark_acked msgid c.sendlist }

-- The test of the token in Cloud_CoAPRespMessage_handle.
abbrev pub is_answer : MsgHeader → List ℕ → CloudNode → Bool
is_answer h token n =
    not (0 == n.tokenlen)
    && (n.tokenlen == h.tokenlen && same_bytes n.token (take h.tokenlen token))

abbrev pub behind :
    CloudNode → Option (CloudNode × List CloudNode) → Option (CloudNode × List CloudNode)
behind n none = none
behind n (some (found, ns)) = some (found, n ∷ ns)

-- The loop of Cloud_CoAPRespMessage_handle: the node that is answered, and the list without it.
unfoldable pub take_answered :
    MsgHeader → List ℕ → List CloudNode → Option (CloudNode × List CloudNode)
take_answered h token [] = none
take_answered h token (n ∷ ns) =
    let rest = take_answered h token ns in
    if is_answer h token n then some (n, ns) else behind n rest

-- `count--` on an `unsigned char`
abbrev pub down8 : ℕ → ℕ
down8 count = u8 (count + 0xff)

-- Cloud_CoAPRespMessage_handle: the node whose handler is called, and the context.
unfoldable pub cloud_resp_handle :
    MsgHeader → List ℕ → CloudContext → Option CloudNode × CloudContext
cloud_resp_handle h token c = elim (take_answered h token c.sendlist) [
  | none ↦ (none, c)
  | some (n, ns) ↦ (some n, record c { count = down8 c.count; sendlist = ns })
]

-- Cloud_CoAPMessage_handle once the message is deserialized.
unfoldable pub cloud_message_handle :
    MsgHeader → List ℕ → CloudContext → Option CloudNode × CloudContext
cloud_message_handle h token c =
    if h.code == 0 && h.type == 2
    then (none, cloud_ack_handle h.msgid c)
    else if leb 0x40 h.code && ltb h.code 0xc0
    then cloud_resp_handle h token c
    else (none, c)

-- The retransmission in Cloud_CoAPMessage_cycle of a node whose time is over.
unfoldable pub is_resent : CloudNode → Bool
is_resent n = ltb n.retrans_count cloud_max_retry_count && not n.acked

unfoldable pub resent : CloudNode → CloudNode
resent n = record n {
  timeout = u16 (n.timeout_val * 2);
  timeout_val = u16 (n.timeout_val * 2);
  retrans_count = u8 (n.retrans_count + 1);
}

unfoldable pub is_given_up : CloudNode → Bool
is_given_up n = ltb max_transmission_span n.timeout || leb cloud_max_retry_count n.retrans_count

-- A node whose time is over: the node unless it is removed, and what is written.
unfoldable pub cycle_due : CloudNode → Option CloudNode × List (List ℕ)
cycle_due n =
    let m = if is_resent n then resent n else n in
    let sent = if is_resent n then n.message ∷ [] else [] in
    if is_given_up m then (none, sent) else (some m, sent)

-- What a cycle does to a node.
unfoldable pub cycle_node : CloudNode → Option CloudNode × List (List ℕ)
cycle_node n =
    if n.timeout == 0 then cycle_due n else (some (record n { timeout = n.timeout - 1 }), [])

abbrev pub keep : Option CloudNode → List CloudNode → List CloudNode
keep none ns = ns
keep (some n) ns = n ∷ ns

abbrev pub count_kept : Option CloudNode → ℕ → ℕ
count_kept none count = down8 count
count_kept (some n) count = count

-- The loop of Cloud_CoAPMessage_cycle: the nodes left, the count, and what is written.
unfoldable pub cycle_nodes : List CloudNode → ℕ → List CloudNode × ℕ × List (List ℕ)
cycle_nodes [] count = ([], count, [])
cycle_nodes (n ∷ ns) count =
    let (left, own) = cycle_node n in
    let (rest, c, sent) = cycle_nodes ns (count_kept left count) in (keep left rest, c, own ++ sent)

-- Cloud_CoAPMessage_cycle after the messages that have come in are handled.
unfoldable pub cloud_cycle : CloudContext → CloudContext × List (List ℕ)
cloud_cycle c =
    let (rest, count, sent) = cycle_nodes c.sendlist c.count in
    (record c { count = count; sendlist = rest }, sent)

-- ===== src/Coap/SendList.antt =====
-- eng/coap/server/CoAPMessage.c: the requests and confirmable responses that wait for an answer, from
-- sending to acknowledgement, retransmission and time-out.
-- The list holds the nodes in the C list's order. The clock and the outcome of an allocation are
-- arguments; the context and its mutex are taken to exist. A handler call is shown by the node it is
-- made for; addresses are numbers.
pub mod Counts
pub mod Cycle
pub mod Session
mod Runs
use nu_maker_mbed_aliyun_io.Base.{
  same_bytes, ℕ, zero, suc, ◌+◌, ◌-◌, ◌*◌, ◌/◌, ◌%◌, ◌^◌, Bool, true, false, ◌&&◌, ◌||◌, not, ltb,
  leb, ◌==◌, if◌then◌else◌, Option, none, some, List, [], ◌∷◌, ◌++◌, length, take, drop, replicate,
  ℤ, pos, negsuc,
}
use nu_maker_mbed_aliyun_io.Base.Bits.{u8, u16}
use nu_maker_mbed_aliyun_io.Coap.Message.{
  MsgHeader, Message, success, null_error, max_token_len, not_found,
}
use mathlib.Core.Option

abbrev pub u64 : ℕ → ℕ
u64 x = x % 2 ^ 64

abbrev pub data_size_error : ℕ
data_size_error = 261

abbrev pub max_retry_count : ℕ
max_retry_count = 8

abbrev pub ack_timeout : ℕ
ack_timeout = 600

-- NOKEEP is 0 and KEEPING is 1.
pub record SendNode : Type 0 where
  pub header : MsgHeader
  pub retrans_count : ℕ
  pub token : List ℕ
  pub timeout : ℕ
  pub timeout_val : ℕ
  pub msglen : ℕ
  pub handler : Option ℕ
  pub remote : ℕ
  pub user : Option ℕ
  pub message : List ℕ
  pub acked : ℕ
  pub keep : ℕ

pub record SendList : Type 0 where
  pub nodes : List SendNode
  pub count : ℕ
  pub maxcount : ℕ

-- The new id and the context's counter, an `unsigned short`; with no context the id is 0.
unfoldable pub message_id_gen : Option ℕ → ℕ × Option ℕ
message_id_gen none = (0, none)
message_id_gen (some id) = if 0xffff == id then (1, some 1) else (id, some (u16 (id + 1)))

abbrev pub is_resp : MsgHeader → Bool
is_resp h = leb 0x40 h.code && ltb h.code 0xc0

abbrev keep_one : ℤ → Bool
keep_one (pos n) = n == 1
keep_one (negsuc n) = false

-- The node that CoAPMessageList_add fills in at the time `tick`.
unfoldable pub send_node : Bool → ℕ → ℕ → Message → List ℕ → ℕ → SendNode
send_node multicast tick remote m buffer len = record {
  header = m.header;
  retrans_count = if m.header.type == 0 then max_retry_count else 0;
  token = take m.header.tokenlen m.token ++ drop m.header.tokenlen (replicate max_token_len 0);
  timeout = if m.header.type == 0 then u64 (ack_timeout + tick) else u64 (ack_timeout * 4 + tick);
  timeout_val = ack_timeout;
  msglen = len;
  handler = m.handler;
  remote = remote;
  user = m.user;
  message = buffer;
  acked = 0;
  keep = if multicast || keep_one m.keep then 1 else 0;
}

unfoldable pub list_add : Bool → Bool → ℕ → SendList → ℕ → Message → List ℕ → ℕ → SendList × ℕ
list_add alloc multicast tick l remote m buffer len =
    if not alloc
    then (l, null_error)
    else if leb l.maxcount l.count
    then (l, data_size_error)
    else (
      record l {
        nodes = l.nodes ++ send_node multicast tick remote m buffer len ∷ [];
        count = u8 (l.count + 1);
      },
      success,
    )

-- `count --` on an `unsigned char`
abbrev pub dec8 : ℕ → ℕ
dec8 c = u8 (c + 0x100 - 1)

-- The loop of CoAPMessage_cancel and CoAPMessageId_cancel: the nodes left, and the count.
unfoldable pub cancel_nodes : ℕ → List SendNode → ℕ → List SendNode × ℕ
cancel_nodes msgid [] count = ([], count)
cancel_nodes msgid (n ∷ ns) count =
    let hit = n.header.msgid == msgid in
    let (left, c) = cancel_nodes msgid ns (if hit then dec8 count else count) in
    (if hit then left else n ∷ left, c)

unfoldable pub message_id_cancel : SendList → ℕ → SendList × ℕ
message_id_cancel l msgid =
    let (left, c) = cancel_nodes msgid l.nodes l.count in
    (record l { nodes = left; count = c }, success)

-- The node whose handler is called, and the list: the first node with the id is marked, and taken off
-- if it is a response.
unfoldable pub ack_node : ℕ → List SendNode → Option (SendNode × Bool × List SendNode)
ack_node msgid [] = none
ack_node msgid (n ∷ ns) =
    let rest = Option.map (λ r. (r.0, r.1, n ∷ r.2)) (ack_node msgid ns) in
    let marked = record n { acked = 1 } in
    if n.header.msgid == msgid
    then if is_resp n.header then some (n, true, ns) else some (n, false, marked ∷ ns)
    else rest

unfoldable pub ack_message_handle : SendList → ℕ → SendList × Option SendNode
ack_message_handle l msgid = elim (ack_node msgid l.nodes) [
  | none ↦ (l, none)
  | some (n, gone, ns) ↦
      (record l { nodes = ns; count = if gone then dec8 l.count else l.count }, some n)
]

abbrev pub answers : MsgHeader → List ℕ → SendNode → Bool
answers h token n =
    not (0 == n.header.tokenlen)
    && (n.header.tokenlen == h.tokenlen
        && same_bytes (take h.tokenlen n.token) (take h.tokenlen token))

-- The first node that a response answers, and the list without it unless it is kept.
unfoldable pub resp_node : MsgHeader → List ℕ → List SendNode → Option (SendNode × List SendNode)
resp_node h token [] = none
resp_node h token (n ∷ ns) =
    let rest = Option.map (λ r. (r.0, n ∷ r.1)) (resp_node h token ns) in
    if answers h token n then some (n, if n.keep == 0 then ns else n ∷ ns) else rest

-- The part of CoAPRespMessage_handle that uses the send list.
unfoldable pub resp_message_list : SendList → MsgHeader → List ℕ → SendList × Option SendNode
resp_message_list l h token = elim (resp_node h token l.nodes) [
  | none ↦ (l, none)
  | some (n, ns) ↦
      (record l { nodes = ns; count = if n.keep == 0 then dec8 l.count else l.count }, some n)
]

-- One round of Retansmit on a node: the node, and whether it is written to the network.
unfoldable pub retransmit_node : ℕ → SendNode → SendNode × Bool
retransmit_node tick n =
    let val = u16 (n.timeout_val * 3 / 2) in
    let left = n.retrans_count - 1 in
    if ltb tick n.timeout
    then (n, false)
    else if ltb 0 n.retrans_count
    then (
      record n {
        timeout = if left == 0 then u64 (tick + ack_timeout) else u64 (tick + val);
        timeout_val = val;
        retrans_count = left;
      },
      0 == n.acked,
    )
    else (n, false)

-- The list, and the nodes that are written, in order.
unfoldable pub retransmit : ℕ → List SendNode → List SendNode × List SendNode
retransmit tick [] = ([], [])
retransmit tick (n ∷ ns) =
    let (n', sent) = retransmit_node tick n in
    let (ns', out) = retransmit tick ns in (n' ∷ ns', if sent then n ∷ out else out)

abbrev pub is_timed_out : ℕ → SendNode → Bool
is_timed_out tick n = n.keep == 0 && (not (ltb 0 n.retrans_count) && not (leb tick n.timeout))

-- The first node that has timed out, and the list without it: one pass of Check_timeout.
unfoldable pub timed_out_node : ℕ → List SendNode → Option (SendNode × List SendNode)
timed_out_node tick [] = none
timed_out_node tick (n ∷ ns) =
    let rest = Option.map (λ r. (r.0, n ∷ r.1)) (timed_out_node tick ns) in
    if is_timed_out tick n then some (n, ns) else rest

-- The passes of Check_timeout until none finds a node: the list, and the nodes for which the handler
-- is called and the observers of the peer are deleted. `fuel` is the number of passes.
unfoldable pub check_timeout_loop : ℕ → ℕ → SendList → Option (SendList × List SendNode)
check_timeout_loop zero tick l = none
check_timeout_loop (suc fuel) tick l = elim (timed_out_node tick l.nodes) [
  | none ↦ some (l, [])
  | some (n, ns) ↦
      Option.map (λ r. (r.0, n ∷ r.1))
        (check_timeout_loop fuel tick (record l { nodes = ns; count = dec8 l.count }))
]

unfoldable pub check_timeout : ℕ → SendList → Option (SendList × List SendNode)
check_timeout tick l = check_timeout_loop (suc (length l.nodes)) tick l

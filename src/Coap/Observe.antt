-- ===== src/Coap/Observe.antt =====
-- eng/coap/server/CoAPObserve.c, the server's side: the peers that observe a resource.
-- An observer's resource is its place in the table of resources, which no call takes a resource from.
-- Addresses are numbers. The outcomes of allocations and the value of a variable that the code does not
-- set are arguments.
pub mod Registered
pub mod Client
pub mod Watched
pub mod Send
pub mod Notify
pub mod Packet
pub mod Notified
pub mod Session
pub mod Respond
pub mod Heard
mod Runs
use nu_maker_mbed_aliyun_io.Base.{
  ℕ, zero, suc, ◌+◌, ◌-◌, Bool, true, false, ◌&&◌, not, leb, ◌==◌, if◌then◌else◌, Option, none,
  some, List, [], ◌∷◌, ◌++◌, take, drop, replicate,
}
use nu_maker_mbed_aliyun_io.Base.Bits.{u8}
use nu_maker_mbed_aliyun_io.Coap.Message.{
  MsgHeader, Message, uint_option_get, max_token_len, success, malloc_error, not_found,
}
use nu_maker_mbed_aliyun_io.Coap.SendList.{dec8, data_size_error}
use nu_maker_mbed_aliyun_io.Coap.Resource.{Resource, answers_path}
use mathlib.Core.Option

abbrev pub option_observe : ℕ
option_observe = 6

abbrev pub option_accept : ℕ
option_accept = 17

abbrev pub ct_app_json : ℕ
ct_app_json = 50

abbrev pub obj_already_exist : ℕ
obj_already_exist = 270

pub record Observer : Type 0 where
  pub remote : ℕ
  pub token : List ℕ
  pub tokenlen : ℕ
  pub ctype : ℕ
  pub resource_of_interest : ℕ
  pub observer_sequence_num : ℕ
  pub msg_type : ℕ

pub record ObserverList : Type 0 where
  pub observers : List Observer
  pub count : ℕ
  pub maxcount : ℕ

abbrev pub obs_server_init : ℕ → ObserverList
obs_server_init obs_maxcount = record { observers = []; count = 0; maxcount = u8 obs_maxcount }

abbrev pub obs_server_deinit : ObserverList → ObserverList
obs_server_deinit l = record { observers = []; count = 0; maxcount = 0 }

-- The place of the node that CoAPResourceByPath_get returns.
unfoldable pub by_path_place : (List ℕ → List ℕ) → List Resource → List ℕ → Option ℕ
by_path_place md5 [] path = none
by_path_place md5 (r ∷ rs) path =
    let rest = Option.map suc (by_path_place md5 rs path) in
    if answers_path md5 path r then some 0 else rest

abbrev pub observes : ℕ → ℕ → Observer → Bool
observes place remote o = o.resource_of_interest == place && o.remote == remote

abbrev pub retoken : Message → Observer → Observer
retoken request o = record o {
  token = take request.header.tokenlen request.token ++ drop request.header.tokenlen o.token;
  tokenlen = request.header.tokenlen;
}

-- The first loop of CoAPObsServer_add: the list with the observer's token replaced, if it is there.
unfoldable pub update_observer : ℕ → ℕ → Message → List Observer → Option (List Observer)
update_observer place remote request [] = none
update_observer place remote request (o ∷ os) =
    let rest = Option.map (λ l. o ∷ l) (update_observer place remote request os) in
    if observes place remote o then some (retoken request o ∷ os) else rest

-- `*data` after CoAPUintOption_get on a variable set to 0 decides the format.
unfoldable pub new_observer : ℕ → ℕ → Message → Observer
new_observer place remote request =
    let acceptype = (uint_option_get request.options option_accept 0).1 in
    record {
      remote = remote;
      token =
          take request.header.tokenlen request.token
          ++ drop request.header.tokenlen (replicate max_token_len 0);
      tokenlen = request.header.tokenlen;
      ctype = if acceptype == 0 then ct_app_json else u8 acceptype;
      resource_of_interest = place;
      observer_sequence_num = 0;
      msg_type = request.header.type;
    }

-- The part of CoAPObsServer_add behind its conditions.
unfoldable pub add_observer : Bool → ObserverList → ℕ → ℕ → Message → ObserverList × ℕ
add_observer alloc l place remote request =
    elim (update_observer place remote request l.observers) [
      | some os ↦ (record l { observers = os }, obj_already_exist)
      | none ↦
          if not alloc
          then (l, malloc_error)
          else if leb l.maxcount l.count
          then (l, data_size_error)
          else (
            record l {
              observers = l.observers ++ new_observer place remote request ∷ [];
              count = u8 (l.count + 1);
            },
            success,
          )
    ]

-- CoAPObsServer_add; `stored` is what the variable `observe` holds before.
unfoldable pub obs_server_add :
    (List ℕ → List ℕ)
    → Bool
    → ℕ
    → List Resource
    → ObserverList
    → List ℕ
    → ℕ
    → Message
    → ObserverList × ℕ
obs_server_add md5 alloc stored rs l path remote request =
    let (ret, observe) = uint_option_get request.options option_observe stored in
    elim (by_path_place md5 rs path) [
      | none ↦ (l, not_found)
      | some place ↦
          if ret == success && observe == 0
          then add_observer alloc l place remote request
          else (l, not_found)
    ]

-- The loop of CoapObsServer_delete: the list without the first such observer.
unfoldable pub drop_observer : ℕ → ℕ → List Observer → Option (List Observer)
drop_observer place remote [] = none
drop_observer place remote (o ∷ os) =
    let rest = Option.map (λ l. o ∷ l) (drop_observer place remote os) in
    if observes place remote o then some os else rest

unfoldable pub obs_server_delete : ObserverList → ℕ → ℕ → ObserverList × ℕ
obs_server_delete l remote place = elim (drop_observer place remote l.observers) [
  | none ↦ (l, success)
  | some os ↦ (record l { observers = os; count = dec8 l.count }, success)
]

-- The loop of CoapObsServerAll_delete: the observers left, and the count.
unfoldable pub drop_remote : ℕ → List Observer → ℕ → List Observer × ℕ
drop_remote remote [] count = ([], count)
drop_remote remote (o ∷ os) count =
    let hit = o.remote == remote in
    let (left, c) = drop_remote remote os (if hit then dec8 count else count) in
    (if hit then left else o ∷ left, c)

unfoldable pub obs_server_all_delete : ObserverList → ℕ → ObserverList × ℕ
obs_server_all_delete l remote =
    let (left, c) = drop_remote remote l.observers l.count in
    (record l { observers = left; count = c }, success)

-- ===== src/Coap/Observe/Client.antt =====
-- eng/coap/server/CoAPObserve.c, the client's side: the resources of peers that the application watches.
-- A callback is a number, shown by the node that it is called for.
use nu_maker_mbed_aliyun_io.Base.{
  same_bytes, ℕ, ◌+◌, Bool, true, false, ◌&&◌, not, ltb, ◌==◌, if◌then◌else◌, Option, none, some,
  List, [], ◌∷◌, ◌++◌, take, drop, replicate,
}
use nu_maker_mbed_aliyun_io.Base.Bits.{u8}
use nu_maker_mbed_aliyun_io.Coap.Message.{
  Message, option_present, uint_option_get, max_token_len, success,
}
use nu_maker_mbed_aliyun_io.Coap.SendList.{SendNode, dec8}
use nu_maker_mbed_aliyun_io.Coap.Observe.{option_observe}
use mathlib.Core.Option

abbrev pub option_maxage : ℕ
option_maxage = 14

pub record Observable : Type 0 where
  pub remote : ℕ
  pub token : List ℕ
  pub tokenlen : ℕ
  pub callback : Option ℕ
  pub max_age : ℕ
  pub userdata : Option ℕ

pub record ObservableList : Type 0 where
  pub observables : List Observable
  pub count : ℕ
  pub maxcount : ℕ

abbrev pub obs_client_init : ℕ → ObservableList
obs_client_init obs_maxcount = record { observables = []; count = 0; maxcount = u8 obs_maxcount }

abbrev pub obs_client_deinit : ObservableList → ObservableList
obs_client_deinit l = record { observables = []; count = 0; maxcount = 0 }

abbrev pub has_token : Message → Observable → Bool
has_token m o =
    not (0 == o.tokenlen)
    && (o.tokenlen == m.header.tokenlen
        && same_bytes (take o.tokenlen o.token) (take o.tokenlen m.token))

-- The loop over the list for a response that no request waits for: the node found, its age renewed,
-- and the list.
unfoldable pub renew : Message → List Observable → Option (Observable × List Observable)
renew m [] = none
renew m (o ∷ os) =
    let rest = Option.map (λ r. (r.0, o ∷ r.1)) (renew m os) in
    let o' = record o { max_age = (uint_option_get m.options option_maxage o.max_age).1 } in
    if has_token m o then some (o', o' ∷ os) else rest

unfoldable pub is_watched : Message → List Observable → Bool
is_watched m [] = false
is_watched m (o ∷ os) = if has_token m o then true else is_watched m os

unfoldable pub new_observable : Message → ℕ → SendNode → Observable
new_observable m remote n = record {
  remote = remote;
  token = take m.header.tokenlen m.token ++ drop m.header.tokenlen (replicate max_token_len 0);
  tokenlen = m.header.tokenlen;
  callback = n.handler;
  max_age = (uint_option_get m.options option_maxage 0).1;
  userdata = n.user;
}

-- The list without the first node that has the token of the message.
unfoldable pub forget : Message → List Observable → Option (List Observable)
forget m [] = none
forget m (o ∷ os) =
    let rest = Option.map (λ l. o ∷ l) (forget m os) in if has_token m o then some os else rest

unfoldable pub forget_watched : ObservableList → Message → ObservableList
forget_watched l m = elim (forget m l.observables) [
  | none ↦ l
  | some os ↦ record l { observables = os; count = dec8 l.count }
]

unfoldable pub watch : Bool → ObservableList → Message → ℕ → SendNode → ObservableList
watch alloc l m remote n =
    if not (is_watched m l.observables) && (ltb l.count l.maxcount && alloc)
    then record l {
      observables = l.observables ++ new_observable m remote n ∷ [];
      count = u8 (l.count + 1);
    }
    else l

unfoldable pub renew_watched : ObservableList → Message → ObservableList × Option Observable
renew_watched l m = elim (renew m l.observables) [
  | none ↦ (l, none)
  | some (o, os) ↦ (record l { observables = os }, some o)
]

-- CoAPObsClient_add: the list, and the node whose callback, if it has one, is called with the message.
unfoldable pub obs_client_add :
    Bool → ObservableList → Message → ℕ → Option SendNode → ObservableList × Option Observable
obs_client_add alloc l m remote none =
    if option_present m.options option_observe == success
    then renew_watched l m
    else (forget_watched l m, none)
obs_client_add alloc l m remote (some n) =
    if option_present m.options option_observe == success
    then (watch alloc l m remote n, none)
    else (forget_watched l m, none)

-- CoAPObsClient_delete on the message that is sent: a GET with the option at 1 ends the observation.
unfoldable pub obs_client_delete : ObservableList → Message → ObservableList
obs_client_delete l m =
    let (ret, observe) = uint_option_get m.options option_observe 0 in
    if m.header.code == 1
      && (option_present m.options option_observe == success && (ret == success && observe == 1))
    then forget_watched l m
    else l

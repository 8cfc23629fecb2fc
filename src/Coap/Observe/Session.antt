-- ===== src/Coap/Observe/Session.antt =====
-- Sequences of calls on the server's observers, and a registration that is followed by notifications.
use nu_maker_mbed_aliyun_io.Base.{
  ℕ, ◌≤◌, ◌<◌, ◌≡◌, refl, sym, ap, arith, Bool, not, ◌==◌, leb, some, List, [], ◌∷◌, ◌++◌, All,
  length, take, drop, replicate, get_elem?, Bool-cases, Option-cases, inl, inr, subst, if_elim,
  length-append, length-take, length-drop, take-append_length,
}
use nu_maker_mbed_aliyun_io.Coap.Message.{Message, max_token_len, success}
use nu_maker_mbed_aliyun_io.Coap.SendList.{dec8}
use nu_maker_mbed_aliyun_io.Coap.Resource.{Resource}
use nu_maker_mbed_aliyun_io.Coap.Observe.{
  Observer, ObserverList, observes, retoken, update_observer, new_observer, add_observer,
  obs_server_init, obs_server_add, obs_server_delete, obs_server_all_delete, drop_observer,
  drop_remote, by_path_place,
}
use nu_maker_mbed_aliyun_io.Coap.Observe.Registered.{
  IsRegister, keys, add_observer-IsRegister, obs_server_delete-IsRegister,
  obs_server_all_delete-IsRegister,
}
use nu_maker_mbed_aliyun_io.Coap.Observe.Send.{Outside}
use nu_maker_mbed_aliyun_io.Coap.Observe.Notify.{Notice, Context, obs_server_notify}
use nu_maker_mbed_aliyun_io.Coap.Observe.Notified.{
  IsObserver, numbered_on, bump_number-IsObserver, notify_from-observers,
}

-- A request as the deserializer stores it.
pub record IsRequest (m : Message) : Type 0 where
  pub type_bits : m.header.type < 4
  pub tokenlen_max : m.header.tokenlen ≤ max_token_len
  pub token_array : length m.token ≡ max_token_len

length-retokened :
    (n : ℕ) (token old : List ℕ)
    → n ≤ max_token_len
    → length token ≡ max_token_len
    → length old ≡ max_token_len
    → length (take n token ++ drop n old) ≡ max_token_len
length-retokened n token old h t o =
    omega (arith, length-append (take n token) (drop n old), length-take n token, length-drop n old)

pub take-retokened :
    (n : ℕ) (token old : List ℕ)
    → n ≤ max_token_len
    → length token ≡ max_token_len
    → take n (take n token ++ drop n old) ≡ take n token
take-retokened n token old h t =
    take-append_length (take n token) (drop n old) n (omega (arith, length-take n token))

new_observer-IsObserver :
    (place remote : ℕ) (request : Message)
    → IsRequest request
    → IsObserver (new_observer place remote request)
unfolding new_observer
new_observer-IsObserver place remote request v = record {
  type_bits = v.type_bits;
  tokenlen_max = v.tokenlen_max;
  token_array =
      length-retokened request.header.tokenlen request.token (replicate max_token_len 0)
        v.tokenlen_max v.token_array refl;
  number_word = omega arith;
}

All-append {ℓ κ} :
    {A : Type ℓ} (P : A → Type κ) (xs : List A) (x : A) → All P xs → P x → All P (xs ++ x ∷ [])
All-append P [] x a p = (p, tt)
All-append P (y ∷ xs) x a p = (a.0, All-append P xs x a.1 p)

update_observer-IsObserver :
    (place remote : ℕ) (request : Message) (os os' : List Observer)
    → update_observer place remote request os ≡ some os'
    → IsRequest request
    → All IsObserver os
    → All IsObserver os'
unfolding update_observer
update_observer-IsObserver place remote request [] os' e q v = absurd (ground (arith, e))
update_observer-IsObserver place remote request (o ∷ os) os' e q v =
    elim (Bool-cases (observes place remote o)) [
      | inl hit ↦
          let same : retoken request o ∷ os ≡ os' = ground (arith, e, hit) in
          subst (All IsObserver) same (
            record {
              type_bits = v.0.type_bits;
              tokenlen_max = q.tokenlen_max;
              token_array =
                  length-retokened request.header.tokenlen request.token o.token q.tokenlen_max
                    q.token_array v.0.token_array;
              number_word = v.0.number_word;
            },
            v.1,
          )
      | inr miss ↦ elim (Option-cases (update_observer place remote request os)) [
        | inl f ↦ absurd (ground (arith, e, f, miss))
        | inr (os'', f) ↦
            let same : o ∷ os'' ≡ os' = ground (arith, e, f, miss) in
            subst (All IsObserver) same
              (v.0, update_observer-IsObserver place remote request os os'' f q v.1)
      ]
    ]

-- The list is a register, and its observers are fit to be notified.
pub record IsServed (l : ObserverList) : Type 0 where
  pub register : IsRegister l
  pub observers_fit : All IsObserver l.observers

add_observer-IsServed :
    (alloc : Bool) (l : ObserverList) (place remote : ℕ) (request : Message)
    → IsRequest request
    → IsServed l
    → IsServed (add_observer alloc l place remote request).0
unfolding add_observer
add_observer-IsServed alloc l place remote request q v =
    let P : ObserverList × ℕ → Type 0 = λ t. All IsObserver t.0.observers in
    record {
      register = add_observer-IsRegister alloc l place remote request v.register;
      observers_fit = elim (Option-cases (update_observer place remote request l.observers)) [
        | inl f ↦
            rw (f, add_observer)
              (if_elim P (not alloc) (λ _. v.observers_fit)
                (λ _.
                  if_elim P (leb l.maxcount l.count) (λ _. v.observers_fit)
                    (λ _.
                      All-append IsObserver l.observers (new_observer place remote request)
                        v.observers_fit (new_observer-IsObserver place remote request q))))
        | inr (os, f) ↦
            rw (f, add_observer)
              (update_observer-IsObserver place remote request l.observers os f q v.observers_fit)
      ];
    }

pub obs_server_add-IsServed :
    (md5 : List ℕ → List ℕ) (alloc : Bool) (stored : ℕ) (rs : List Resource) (l : ObserverList)
    (path : List ℕ) (remote : ℕ) (request : Message)
    → IsRequest request
    → IsServed l
    → IsServed (obs_server_add md5 alloc stored rs l path remote request).0
unfolding obs_server_add
obs_server_add-IsServed md5 alloc stored rs l path remote request q v =
    let P : ObserverList × ℕ → Type 0 = λ t. IsServed t.0 in
    elim (Option-cases (by_path_place md5 rs path)) [
      | inl f ↦ rw (f, obs_server_add) v
      | inr (place, f) ↦
          rw (f, obs_server_add)
            (if_elim P _ (λ _. add_observer-IsServed alloc l place remote request q v) (λ _. v))
    ]

All-drop_observer :
    (place remote : ℕ) (os os' : List Observer)
    → drop_observer place remote os ≡ some os'
    → All IsObserver os
    → All IsObserver os'
unfolding drop_observer
All-drop_observer place remote [] os' e v = absurd (ground (arith, e))
All-drop_observer place remote (o ∷ os) os' e v = elim (Bool-cases (observes place remote o)) [
  | inl hit ↦ let same : os ≡ os' = ground (arith, e, hit) in subst (All IsObserver) same v.1
  | inr miss ↦ elim (Option-cases (drop_observer place remote os)) [
    | inl f ↦ absurd (ground (arith, e, f, miss))
    | inr (os'', f) ↦
        let same : o ∷ os'' ≡ os' = ground (arith, e, f, miss) in
        subst (All IsObserver) same (v.0, All-drop_observer place remote os os'' f v.1)
  ]
]

All-drop_remote :
    (remote : ℕ) (os : List Observer) (count : ℕ)
    → All IsObserver os
    → All IsObserver (drop_remote remote os count).0
unfolding drop_remote
All-drop_remote remote [] count v = tt
All-drop_remote remote (o ∷ os) count v = elim (Bool-cases (o.remote == remote)) [
  | inl hit ↦ rw hit (All-drop_remote remote os (dec8 count) v.1)
  | inr miss ↦ rw miss (v.0, All-drop_remote remote os count v.1)
]

obs_server_delete-IsServed :
    (l : ObserverList) (remote place : ℕ)
    → IsServed l
    → IsServed (obs_server_delete l remote place).0
unfolding obs_server_delete
obs_server_delete-IsServed l remote place v = record {
  register = (obs_server_delete-IsRegister l remote place v.register).0;
  observers_fit = elim (Option-cases (drop_observer place remote l.observers)) [
    | inl f ↦ rw (f, obs_server_delete) v.observers_fit
    | inr (os, f) ↦
        rw (f, obs_server_delete) (All-drop_observer place remote l.observers os f v.observers_fit)
  ];
}

obs_server_all_delete-IsServed :
    (l : ObserverList) (remote : ℕ) → IsServed l → IsServed (obs_server_all_delete l remote).0
unfolding obs_server_all_delete
obs_server_all_delete-IsServed l remote v = record {
  register = (obs_server_all_delete-IsRegister l remote v.register).0;
  observers_fit = All-drop_remote remote l.observers l.count v.observers_fit;
}

keys-numbered_on : (place : ℕ) (os : List Observer) → keys (numbered_on place os) ≡ keys os
unfolding numbered_on
keys-numbered_on place [] = refl
keys-numbered_on place (o ∷ os) = elim (Bool-cases (o.resource_of_interest == place)) [
  | inl hit ↦ rw hit (ap (◌∷◌ (o.resource_of_interest, o.remote)) (keys-numbered_on place os))
  | inr miss ↦ rw miss (ap (◌∷◌ (o.resource_of_interest, o.remote)) (keys-numbered_on place os))
]

All-numbered_on :
    (place : ℕ) (os : List Observer) → All IsObserver os → All IsObserver (numbered_on place os)
unfolding numbered_on
All-numbered_on place [] v = tt
All-numbered_on place (o ∷ os) v = elim (Bool-cases (o.resource_of_interest == place)) [
  | inl hit ↦ rw hit (bump_number-IsObserver o v.0, All-numbered_on place os v.1)
  | inr miss ↦ rw miss (v.0, All-numbered_on place os v.1)
]

numbered_on-IsServed :
    (place : ℕ) (l : ObserverList)
    → IsServed l
    → IsServed (record l { observers = numbered_on place l.observers })
numbered_on-IsServed place l v =
    let e = keys-numbered_on place l.observers in
    let r = v.register in
    record {
      register = record {
        exact = rw e r.exact;
        bounded = r.bounded;
        byte = r.byte;
        distinct = rw e r.distinct;
      };
      observers_fit = All-numbered_on place l.observers v.observers_fit;
    }

obs_server_notify-IsServed :
    (md5 : List ℕ → List ℕ) (w : ℕ → Outside) (memory : Message) (rs : List Resource)
    (l : ObserverList) (c : Context) (path : List ℕ) (n : Notice)
    → IsServed l
    → IsServed (obs_server_notify md5 w memory rs l c path n).0
unfolding obs_server_notify
obs_server_notify-IsServed md5 w memory rs l c path n v =
    elim (Option-cases (by_path_place md5 rs path)) [
      | inl f ↦ rw (f, obs_server_notify) v
      | inr (place, f) ↦ elim (Option-cases (get_elem? rs place)) [
        | inl g ↦ rw (f, obs_server_notify) (rw g v)
        | inr (r, g) ↦
            rw (f, obs_server_notify)
              (rw g (
                subst (λ os. IsServed (record l { observers = os }))
                  (sym (notify_from-observers w memory n place r.maxage l.observers c success))
                  (numbered_on-IsServed place l v)))
      ]
    ]

-- A call on the observers: a request that arrives, the end of an observation, the loss of a peer, and
-- a notification.
pub data Call : Type 0 where
  register :
      (alloc : Bool) (stored : ℕ) (rs : List Resource) (path : List ℕ) (remote : ℕ)
      (request : Message)
      → Call
  delete : (remote place : ℕ) → Call
  all_delete : (remote : ℕ) → Call
  notify :
      (w : ℕ → Outside) (memory : Message) (rs : List Resource) (c : Context) (path : List ℕ)
      (n : Notice)
      → Call

unfoldable pub step : (List ℕ → List ℕ) → Call → ObserverList → ObserverList
step md5 (register alloc stored rs path remote request) l =
    (obs_server_add md5 alloc stored rs l path remote request).0
step md5 (delete remote place) l = (obs_server_delete l remote place).0
step md5 (all_delete remote) l = (obs_server_all_delete l remote).0
step md5 (notify w memory rs c path n) l = (obs_server_notify md5 w memory rs l c path n).0

unfoldable pub run : (List ℕ → List ℕ) → List Call → ObserverList → ObserverList
run md5 [] l = l
run md5 (call ∷ calls) l = run md5 calls (step md5 call l)

abbrev pub IsCall : Call → Type 0
IsCall (register alloc stored rs path remote request) = IsRequest request
IsCall (delete remote place) = Unit
IsCall (all_delete remote) = Unit
IsCall (notify w memory rs c path n) = Unit

step-IsServed :
    (md5 : List ℕ → List ℕ) (call : Call) (l : ObserverList)
    → IsCall call
    → IsServed l
    → IsServed (step md5 call l)
unfolding step
step-IsServed md5 (register alloc stored rs path remote request) l q v =
    obs_server_add-IsServed md5 alloc stored rs l path remote request q v
step-IsServed md5 (delete remote place) l q v = obs_server_delete-IsServed l remote place v
step-IsServed md5 (all_delete remote) l q v = obs_server_all_delete-IsServed l remote v
step-IsServed md5 (notify w memory rs c path n) l q v =
    obs_server_notify-IsServed md5 w memory rs l c path n v

run-IsServed :
    (md5 : List ℕ → List ℕ) (calls : List Call) (l : ObserverList)
    → All IsCall calls
    → IsServed l
    → IsServed (run md5 calls l)
unfolding run
run-IsServed md5 [] l q v = v
run-IsServed md5 (call ∷ calls) l q v =
    run-IsServed md5 calls (step md5 call l) q.1 (step-IsServed md5 call l q.0 v)

-- After CoAPObsServer_init and any registrations, deletions and notifications, where the requests have
-- a type of two bits and a token of at most eight bytes: the counter is the number of the observers and
-- at most the limit, no peer observes a resource twice, and every observer is fit to be notified.
pub run-init-IsServed :
    (md5 : List ℕ → List ℕ) (calls : List Call) (obs_maxcount : ℕ)
    → All IsCall calls
    → IsServed (run md5 calls (obs_server_init obs_maxcount))
run-init-IsServed md5 calls obs_maxcount q =
    run-IsServed md5 calls (obs_server_init obs_maxcount) q (record {
      register = record { exact = refl; bounded = omega arith; byte = omega arith; distinct = tt };
      observers_fit = tt;
    })

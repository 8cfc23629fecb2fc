-- ===== src/Coap/Observe/Watched.antt =====
-- The client's observations, from the first response to the request that ends them.
use nu_maker_mbed_aliyun_io.Base.{
  same_bytes_refl, ℕ, suc, ◌+◌, ◌≤◌, ◌<◌, ◌≡◌, ◌≢◌, refl, sym, ap, ◌∙◌, arith, Bool, true, false,
  ◌==◌, Option, none, some, List, [], ◌∷◌, ◌++◌, take, drop, replicate, length, length-take,
  take-append_length, Bool-cases, inl, inr, lt→ltb, All, ==_iff, ==-false,
}
use nu_maker_mbed_aliyun_io.Base.Bits.{u8}
use nu_maker_mbed_aliyun_io.Coap.Message.{
  Message, option_present, uint_option_get, success, max_token_len,
}
use nu_maker_mbed_aliyun_io.Coap.SendList.{SendNode, dec8}
use nu_maker_mbed_aliyun_io.Coap.Observe.{option_observe}
use nu_maker_mbed_aliyun_io.Coap.Observe.Client.{
  Observable, ObservableList, has_token, option_maxage, renew, is_watched, new_observable, forget,
  forget_watched, watch, renew_watched, obs_client_add, obs_client_delete,
}

-- The messages carry the same token, which is not empty.
pub record SameToken (m m' : Message) : Type 0 where
  pub present : m.header.tokenlen ≢ 0
  pub same_len : m'.header.tokenlen ≡ m.header.tokenlen
  pub same_token : take m.header.tokenlen m'.token ≡ take m.header.tokenlen m.token

has_token-SameToken :
    (m m' : Message) (o : Observable) → SameToken m m' → has_token m' o ≡ has_token m o
has_token-SameToken m m' o v = elim (Bool-cases (o.tokenlen == m.header.tokenlen)) [
  | inl hit ↦
      let e : o.tokenlen ≡ m.header.tokenlen = ground (arith, hit) in
      rw (e, v.same_len, v.same_token) refl
  | inr miss ↦ rw v.same_len (rw miss refl)
]

is_watched-SameToken :
    (m m' : Message) (os : List Observable) → SameToken m m' → is_watched m' os ≡ is_watched m os
unfolding is_watched
is_watched-SameToken m m' [] v = refl
is_watched-SameToken m m' (o ∷ os) v =
    rw (has_token-SameToken m m' o v, is_watched-SameToken m m' os v) refl

renew-unwatched : (m : Message) (os : List Observable) → is_watched m os ≡ false → renew m os ≡ none
unfolding renew is_watched
renew-unwatched m [] e = refl
renew-unwatched m (o ∷ os) e = elim (Bool-cases (has_token m o)) [
  | inl hit ↦ absurd (ground (arith, e, hit))
  | inr miss ↦ rw (miss, renew-unwatched m os (ground (arith, e, miss))) refl
]

-- Where the last node alone has the token.
renew-append :
    (m : Message) (os : List Observable) (o : Observable)
    → is_watched m os ≡ false
    → has_token m o ≡ true
    → let o' = record o { max_age = (uint_option_get m.options option_maxage o.max_age).1 } in
      renew m (os ++ o ∷ []) ≡ some (o', os ++ o' ∷ [])
unfolding renew is_watched
renew-append m [] o e h = rw h refl
renew-append m (x ∷ os) o e h = elim (Bool-cases (has_token m x)) [
  | inl hit ↦ absurd (ground (arith, e, hit))
  | inr miss ↦ rw (miss, renew-append m os o (ground (arith, e, miss)) h) refl
]

forget-append :
    (m : Message) (os : List Observable) (o : Observable)
    → is_watched m os ≡ false
    → has_token m o ≡ true
    → forget m (os ++ o ∷ []) ≡ some os
unfolding forget is_watched
forget-append m [] o e h = rw h refl
forget-append m (x ∷ os) o e h = elim (Bool-cases (has_token m x)) [
  | inl hit ↦ absurd (ground (arith, e, hit))
  | inr miss ↦ rw (miss, forget-append m os o (ground (arith, e, miss)) h) refl
]

-- A first response that is taken: it has the option, its token is a new one of at most eight bytes, and
-- there is room and memory.
pub record IsFirst (alloc : Bool) (l : ObservableList) (m : Message) : Type 0 where
  pub observing : option_present m.options option_observe ≡ success
  pub unwatched : is_watched m l.observables ≡ false
  pub token_array : length m.token ≡ max_token_len
  pub tokenlen_max : m.header.tokenlen ≤ max_token_len
  pub token_given : m.header.tokenlen ≢ 0
  pub room : l.count < l.maxcount
  pub memory : alloc ≡ true

has_token-new_observable :
    (m : Message) (remote : ℕ) (n : SendNode)
    → m.header.tokenlen ≢ 0
    → m.header.tokenlen ≤ max_token_len
    → length m.token ≡ max_token_len
    → has_token m (new_observable m remote n) ≡ true
unfolding new_observable
has_token-new_observable m remote n given h t =
    rw
      (
        ==-false 0 m.header.tokenlen (λ e. given (sym e)),
        (==_iff m.header.tokenlen m.header.tokenlen).1 refl,
        take-append_length (take m.header.tokenlen m.token)
            (drop m.header.tokenlen (replicate max_token_len 0)) m.header.tokenlen
            (omega (arith, length-take m.header.tokenlen m.token)),
      )
      (same_bytes_refl (take m.header.tokenlen m.token))

watch-IsFirst :
    (alloc : Bool) (l : ObservableList) (m : Message) (remote : ℕ) (n : SendNode)
    → IsFirst alloc l m
    → (obs_client_add alloc l m remote (some n)).0 ≡ record l {
      observables = l.observables ++ new_observable m remote n ∷ [];
      count = u8 (l.count + 1);
    }
unfolding obs_client_add watch
watch-IsFirst alloc l m remote n v =
    rw (v.observing, v.unwatched, lt→ltb l.count l.maxcount v.room, v.memory) refl

-- The list with one more node.
abbrev pub with_node : ObservableList → Observable → ObservableList
with_node l o = record l { observables = l.observables ++ o ∷ []; count = u8 (l.count + 1) }

-- The messages that arrive with no request waiting, with their senders: the list, and the node that
-- each is for.
unfoldable pub tell :
    Bool → ObservableList → List (ℕ × Message) → ObservableList × List (Option Observable)
tell alloc l [] = (l, [])
tell alloc l ((remote, m) ∷ ms) =
    let (l', called) = obs_client_add alloc l m remote none in
    let (l'', rest) = tell alloc l' ms in (l'', called ∷ rest)

-- The call is one of the request's handler with the request's user data.
abbrev pub Calls : SendNode → Option Observable → Type 0
Calls n none = ⊥
Calls n (some o) = (o.callback ≡ n.handler) × (o.userdata ≡ n.user)

abbrev pub IsTold : Message → ℕ × Message → Type 0
IsTold m (remote, m') = SameToken m m' × (option_present m'.options option_observe ≡ success)

abbrev aged : Message → Observable → Observable
aged m o = record o { max_age = (uint_option_get m.options option_maxage o.max_age).1 }

obs_client_add-with_node :
    (alloc : Bool) (l : ObservableList) (o : Observable) (remote : ℕ) (m : Message)
    → option_present m.options option_observe ≡ success
    → is_watched m l.observables ≡ false
    → has_token m o ≡ true
    → obs_client_add alloc (with_node l o) m remote none ≡ (with_node l (aged m o), some (aged m o))
unfolding obs_client_add renew_watched
obs_client_add-with_node alloc l o remote m e u h =
    rw e (rw (renew-append m l.observables o u h, renew_watched) refl)

tell-Calls :
    (alloc : Bool) (l : ObservableList) (n : SendNode) (m : Message) (o : Observable)
    (ms : List (ℕ × Message))
    → is_watched m l.observables ≡ false
    → has_token m o ≡ true
    → Calls n (some o)
    → All (IsTold m) ms
    → (o' : Observable) × ((tell alloc (with_node l o) ms).0 ≡ with_node l o')
      × (has_token m o' ≡ true)
      × (length (tell alloc (with_node l o) ms).1 ≡ length ms)
      × All (Calls n) (tell alloc (with_node l o) ms).1
unfolding tell
tell-Calls alloc l n m o [] u h called t = (o, refl, h, refl, tt)
tell-Calls alloc l n m o ((remote, m') ∷ ms) u h called t =
    let same = t.0.0 in
    let e =
      obs_client_add-with_node alloc l o remote m' t.0.1
        (is_watched-SameToken m m' l.observables same ∙ u) (has_token-SameToken m m' o same ∙ h) in
    let (o', e', h', k, all) = tell-Calls alloc l n m (aged m' o) ms u h called t.1 in
    rw e (o', e', h', ap suc k, (called, all))

obs_client_delete-with_node :
    (l : ObservableList) (o : Observable) (bye : Message)
    → l.count < 0x100
    → bye.header.code ≡ 1
    → option_present bye.options option_observe ≡ success
    → uint_option_get bye.options option_observe 0 ≡ (success, 1)
    → is_watched bye l.observables ≡ false
    → has_token bye o ≡ true
    → obs_client_delete (with_node l o) bye ≡ l
unfolding obs_client_delete forget_watched
obs_client_delete-with_node l o bye b get present end u h =
    let e : dec8 (u8 (l.count + 1)) ≡ l.count = omega arith in
    let code : (bye.header.code == 1) ≡ true = ground (arith, get) in
    let forgotten : forget_watched (with_node l o) bye ≡ l =
      rw (forget-append bye l.observables o u h, forget_watched)
        (ap (λ k. record l { count = k }) e) in
    rw (code, present, end) forgotten

obs_client_add-unwatched :
    (alloc : Bool) (l : ObservableList) (m : Message) (remote : ℕ)
    → option_present m.options option_observe ≡ success
    → is_watched m l.observables ≡ false
    → obs_client_add alloc l m remote none ≡ (l, none)
unfolding obs_client_add renew_watched
obs_client_add-unwatched alloc l m remote e u =
    rw e (rw (renew-unwatched m l.observables u, renew_watched) refl)

new_observable-Calls :
    (m : Message) (remote : ℕ) (n : SendNode) → Calls n (some (new_observable m remote n))
unfolding new_observable
new_observable-Calls m remote n = (refl, refl)

-- Once the response to an observing request is taken, with a new token that is not empty: of the
-- messages with that token and the option that follow, each calls the request's handler with its user
-- data. The GET with the option at 1 and that token then gives back the list as it was before, and a
-- message with the token calls nothing any more.
pub obs_client-Watches :
    (alloc : Bool) (l : ObservableList) (m bye late : Message) (remote late_remote : ℕ)
    (n : SendNode) (ms : List (ℕ × Message))
    → IsFirst alloc l m
    → l.maxcount < 0x100
    → All (IsTold m) ms
    → SameToken m bye
    → bye.header.code ≡ 1
    → option_present bye.options option_observe ≡ success
    → uint_option_get bye.options option_observe 0 ≡ (success, 1)
    → IsTold m (late_remote, late)
    → let l1 = (obs_client_add alloc l m remote (some n)).0 in
      let (l2, calls) = tell alloc l1 ms in
      (length calls ≡ length ms)
      × All (Calls n) calls
      × (obs_client_delete l2 bye ≡ l)
      × (obs_client_add alloc (obs_client_delete l2 bye) late late_remote none ≡ (l, none))
obs_client-Watches alloc l m bye late remote late_remote n ms v byte told same code present end
      after =
    let o : Observable = new_observable m remote n in
    let h = has_token-new_observable m remote n v.token_given v.tokenlen_max v.token_array in
    let called : Calls n (some o) = new_observable-Calls m remote n in
    let (o', e, h', k, all) = tell-Calls alloc l n m o ms v.unwatched h called told in
    let gone : obs_client_delete (with_node l o') bye ≡ l =
      obs_client_delete-with_node l o' bye (omega (arith, v.room, byte)) code present end
        (is_watched-SameToken m bye l.observables same ∙ v.unwatched)
        (has_token-SameToken m bye o' same ∙ h') in
    rw (watch-IsFirst alloc l m remote n v) (
      k,
      all,
      rw e gone,
      rw (e, gone)
          (obs_client_add-unwatched alloc l late late_remote after.1
            (is_watched-SameToken m late l.observables after.0 ∙ v.unwatched)),
    )

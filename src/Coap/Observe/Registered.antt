-- ===== src/Coap/Observe/Registered.antt =====
-- The server's observers: each peer at most once for a resource, and as many as the counter, a byte.
use nu_maker_mbed_aliyun_io.Base.{
  ℕ, ◌+◌, ◌≤◌, ◌<◌, ◌≡◌, refl, ap, ◌∙◌, arith, Bool, false, ◌==◌, none, some, List, [], ◌∷◌, ◌++◌,
  All, length, Bool-cases, Option-cases, inl, inr, if_elim, ◌&&◌, not, leb, subst, suc,
}
use nu_maker_mbed_aliyun_io.Base.Bits.{u8}
use nu_maker_mbed_aliyun_io.Coap.Message.{Message}
use nu_maker_mbed_aliyun_io.Coap.SendList.{dec8}
use nu_maker_mbed_aliyun_io.Coap.Observe.{
  Observer, ObserverList, observes, update_observer, add_observer, new_observer, drop_observer,
  obs_server_delete, drop_remote, obs_server_all_delete,
}

-- The resource and the peer of each observer.
abbrev pub keys : List Observer → List (ℕ × ℕ)
keys [] = []
keys (o ∷ os) = (o.resource_of_interest, o.remote) ∷ keys os

-- No observer is that peer for that resource.
abbrev pub Apart : ℕ → ℕ → List (ℕ × ℕ) → Type 0
Apart place remote ks = All (λ k. (k.0 == place && k.1 == remote) ≡ false) ks

abbrev pub Distinct : List (ℕ × ℕ) → Type 0
Distinct [] = Unit
Distinct ((place, remote) ∷ ks) = Apart place remote ks × Distinct ks

pub record IsRegister (l : ObserverList) : Type 0 where
  pub exact : l.count ≡ length (keys l.observers)
  pub bounded : l.count ≤ l.maxcount
  pub byte : l.maxcount < 0x100
  pub distinct : Distinct (keys l.observers)

pub update_observer-none :
    (place remote : ℕ) (request : Message) (os : List Observer)
    → update_observer place remote request os ≡ none
    → Apart place remote (keys os)
unfolding update_observer
update_observer-none place remote request [] e = tt
update_observer-none place remote request (o ∷ os) e =
    elim (Option-cases (update_observer place remote request os)) [
      | inl f ↦ (ground (arith, e), update_observer-none place remote request os f)
      | inr (os', f) ↦ absurd (ground (arith, e, f))
    ]

-- An update leaves the peers and their resources alone.
pub keys-update_observer :
    (place remote : ℕ) (request : Message) (os os' : List Observer)
    → update_observer place remote request os ≡ some os'
    → keys os' ≡ keys os
unfolding update_observer
keys-update_observer place remote request [] os' e = absurd (ground (arith, e))
keys-update_observer place remote request (o ∷ os) os' e =
    elim (Option-cases (update_observer place remote request os)) [
      | inl f ↦ ground (arith, e, f)
      | inr (os'', f) ↦ ground (arith, e, f, keys-update_observer place remote request os os'' f)
    ]

pub keys-append :
    (os : List Observer) (o : Observer) → keys (os ++ o ∷ []) ≡ keys os ++ keys (o ∷ [])
keys-append [] o = refl
keys-append (x ∷ os) o = ap (◌∷◌ (x.resource_of_interest, x.remote)) (keys-append os o)

Apart-append :
    (p r place remote : ℕ) (ks : List (ℕ × ℕ))
    → Apart p r ks
    → (place == p && remote == r) ≡ false
    → Apart p r (ks ++ (place, remote) ∷ [])
Apart-append p r place remote [] a e = (e, tt)
Apart-append p r place remote (k ∷ ks) a e = (a.0, Apart-append p r place remote ks a.1 e)

Distinct-append :
    (place remote : ℕ) (ks : List (ℕ × ℕ))
    → Apart place remote ks
    → Distinct ks
    → Distinct (ks ++ (place, remote) ∷ [])
Distinct-append place remote [] a d = (tt, tt)
Distinct-append place remote ((p, r) ∷ ks) a d = (
  Apart-append p r place remote ks d.0 (ground (arith, a.0)),
  Distinct-append place remote ks a.1 d.1,
)

length-keys-append :
    (os : List Observer) (o : Observer) → length (keys (os ++ o ∷ [])) ≡ suc (length (keys os))
length-keys-append [] o = refl
length-keys-append (x ∷ os) o = ap suc (length-keys-append os o)

push-IsRegister :
    (l : ObserverList) (o : Observer)
    → Apart o.resource_of_interest o.remote (keys l.observers)
    → l.count < l.maxcount
    → IsRegister l
    → IsRegister (record l { observers = l.observers ++ o ∷ []; count = u8 (l.count + 1) })
push-IsRegister l o a room v = record {
  exact = omega (arith, v.exact, v.byte, length-keys-append l.observers o);
  bounded = omega (arith, v.byte);
  byte = v.byte;
  distinct =
      rw (keys-append l.observers o)
        (Distinct-append o.resource_of_interest o.remote (keys l.observers) a v.distinct);
}

pub add_observer-IsRegister :
    (alloc : Bool) (l : ObserverList) (place remote : ℕ) (request : Message)
    → IsRegister l
    → IsRegister (add_observer alloc l place remote request).0
unfolding add_observer new_observer
add_observer-IsRegister alloc l place remote request v =
    let P : ObserverList × ℕ → Type 0 = λ t. IsRegister t.0 in
    elim (Option-cases (update_observer place remote request l.observers)) [
      | inl f ↦
          rw (f, add_observer)
            (if_elim P (not alloc) (λ _. v)
              (λ _.
                if_elim P (leb l.maxcount l.count) (λ _. v)
                  (λ room.
                    push-IsRegister l (new_observer place remote request)
                      (update_observer-none place remote request l.observers f)
                      (ground (arith, room)) v)))
      | inr (os', f) ↦
          let e = keys-update_observer place remote request l.observers os' f in
          rw (f, add_observer)
            (record {
              exact = rw e v.exact;
              bounded = v.bounded;
              byte = v.byte;
              distinct = rw e v.distinct;
            })
    ]

-- What is dropped was there once: nothing else goes, and that peer observes the resource no more.
pub drop_observer-some :
    (place remote : ℕ) (os os' : List Observer)
    → drop_observer place remote os ≡ some os'
    → length (keys os) ≡ suc (length (keys os'))
      × ((p r : ℕ) → Apart p r (keys os) → Apart p r (keys os'))
unfolding drop_observer
drop_observer-some place remote [] os' e = absurd (ground (arith, e))
drop_observer-some place remote (o ∷ os) os' e = elim (Bool-cases (observes place remote o)) [
  | inl hit ↦
      let same : os ≡ os' = ground (arith, e, hit) in
      (ap (λ t. suc (length (keys t))) same, λ p r a. subst (λ t. Apart p r (keys t)) same a.1)
  | inr miss ↦ elim (Option-cases (drop_observer place remote os)) [
    | inl f ↦ absurd (ground (arith, e, f, miss))
    | inr (os'', f) ↦
        let same : o ∷ os'' ≡ os' = ground (arith, e, f, miss) in
        let (n, keep) = drop_observer-some place remote os os'' f in
        (
          ap suc n ∙ ap (λ t. suc (length (keys t))) same,
          λ p r a. subst (λ t. Apart p r (keys t)) same (a.0, keep p r a.1),
        )
  ]
]

Distinct-drop_observer :
    (place remote : ℕ) (os os' : List Observer)
    → drop_observer place remote os ≡ some os'
    → Distinct (keys os)
    → Distinct (keys os') × Apart place remote (keys os')
unfolding drop_observer
Distinct-drop_observer place remote [] os' e d = absurd (ground (arith, e))
Distinct-drop_observer place remote (o ∷ os) os' e d = elim (Bool-cases (observes place remote o)) [
  | inl hit ↦
      let same : os ≡ os' = ground (arith, e, hit) in
      let p : o.resource_of_interest ≡ place = ground (arith, hit) in
      let r : o.remote ≡ remote = ground (arith, hit) in
      (
        subst (λ t. Distinct (keys t)) same d.1,
        subst (λ t. Apart place remote (keys t)) same
            (subst (λ r'. Apart place r' (keys os)) r
              (subst (λ p'. Apart p' o.remote (keys os)) p d.0)),
      )
  | inr miss ↦ elim (Option-cases (drop_observer place remote os)) [
    | inl f ↦ absurd (ground (arith, e, f, miss))
    | inr (os'', f) ↦
        let same : o ∷ os'' ≡ os' = ground (arith, e, f, miss) in
        let (d', a) = Distinct-drop_observer place remote os os'' f d.1 in
        let keep = (drop_observer-some place remote os os'' f).1 in
        (
          subst (λ t. Distinct (keys t)) same (keep o.resource_of_interest o.remote d.0, d'),
          subst (λ t. Apart place remote (keys t)) same (ground (arith, miss), a),
        )
  ]
]

drop_observer-none :
    (place remote : ℕ) (os : List Observer)
    → drop_observer place remote os ≡ none
    → Apart place remote (keys os)
unfolding drop_observer
drop_observer-none place remote [] e = tt
drop_observer-none place remote (o ∷ os) e = elim (Option-cases (drop_observer place remote os)) [
  | inl f ↦ (ground (arith, e), drop_observer-none place remote os f)
  | inr (os', f) ↦ absurd (ground (arith, e, f))
]

-- After a deletion the peer observes the resource no more.
pub obs_server_delete-IsRegister :
    (l : ObserverList) (remote place : ℕ)
    → IsRegister l
    → IsRegister (obs_server_delete l remote place).0
      × Apart place remote (keys (obs_server_delete l remote place).0.observers)
unfolding obs_server_delete
obs_server_delete-IsRegister l remote place v =
    elim (Option-cases (drop_observer place remote l.observers)) [
      | inl f ↦ rw (f, obs_server_delete) (v, drop_observer-none place remote l.observers f)
      | inr (os', f) ↦
          let (n, keep) = drop_observer-some place remote l.observers os' f in
          let (d, a) = Distinct-drop_observer place remote l.observers os' f v.distinct in
          rw (f, obs_server_delete)
            (
              record {
                exact = omega (arith, v.exact, v.byte, v.bounded);
                bounded = omega (arith, v.exact, v.byte, v.bounded);
                byte = v.byte;
                distinct = d;
              },
              a,
            )
    ]

drop_remote-count :
    (remote : ℕ) (os : List Observer) (count : ℕ)
    → length (keys os) ≤ count
    → count < 0x100
    → ((drop_remote remote os count).1 + length (keys os)
        ≡ count + length (keys (drop_remote remote os count).0))
      × (length (keys (drop_remote remote os count).0) ≤ length (keys os))
unfolding drop_remote
drop_remote-count remote [] count h b = (refl, omega arith)
drop_remote-count remote (o ∷ os) count h b = elim (Bool-cases (o.remote == remote)) [
  | inl hit ↦
      let (e, n) = drop_remote-count remote os (dec8 count) (omega arith) (omega arith) in
      rw hit (omega arith, omega arith)
  | inr miss ↦
      let (e, n) = drop_remote-count remote os count (omega arith) b in
      rw miss (omega arith, omega arith)
]

-- What is left after the deletion of a peer: nothing of the peer, and nothing new.
drop_remote-keys :
    (remote : ℕ) (os : List Observer) (count : ℕ)
    → All (λ o. (o.remote == remote) ≡ false) (drop_remote remote os count).0
      × ((p r : ℕ) → Apart p r (keys os) → Apart p r (keys (drop_remote remote os count).0))
      × (Distinct (keys os) → Distinct (keys (drop_remote remote os count).0))
unfolding drop_remote
drop_remote-keys remote [] count = (tt, λ p r a. a, λ d. d)
drop_remote-keys remote (o ∷ os) count = elim (Bool-cases (o.remote == remote)) [
  | inl hit ↦
      let (gone, keep, d) = drop_remote-keys remote os (dec8 count) in
      rw hit (gone, λ p r a. keep p r a.1, λ x. d x.1)
  | inr miss ↦
      let (gone, keep, d) = drop_remote-keys remote os count in
      rw miss (
        (miss, gone),
        λ p r a. (a.0, keep p r a.1),
        λ x. (keep o.resource_of_interest o.remote x.0, d x.1),
      )
]

-- After the deletion of a peer, as when a notification to it timed out, it observes nothing.
pub obs_server_all_delete-IsRegister :
    (l : ObserverList) (remote : ℕ)
    → IsRegister l
    → IsRegister (obs_server_all_delete l remote).0
      × All (λ o. (o.remote == remote) ≡ false) (obs_server_all_delete l remote).0.observers
unfolding obs_server_all_delete
obs_server_all_delete-IsRegister l remote v =
    let (e, n) =
      drop_remote-count remote l.observers l.count (omega (arith, v.exact))
        (omega (arith, v.bounded, v.byte)) in
    let (gone, keep, d) = drop_remote-keys remote l.observers l.count in
    (
      record {
        exact = omega (arith, v.exact);
        bounded = omega (arith, v.exact, v.bounded);
        byte = v.byte;
        distinct = d v.distinct;
      },
      gone,
    )

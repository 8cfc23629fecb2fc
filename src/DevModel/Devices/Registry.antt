-- ===== src/DevModel/Devices/Registry.antt =====
-- The list of devices over any sequence of calls.
use nu_maker_mbed_aliyun_io.Base.{
  ℕ, ◌+◌, ◌<◌, ◌≡◌, refl, sym, ap, ◌∙◌, arith, ◌||◌, not, Bool, true, false, ltb, ◌==◌, ==_iff,
  ==-false, if◌then◌else◌, if_elim, Option, none, some, List, [], ◌∷◌, ◌++◌, length, All, ℤ, pos,
  negsuc, ◌≢◌, Bool-cases, Option-cases, inl, inr,
}
use nu_maker_mbed_aliyun_io.DevModel.State.{State, success_return}
use nu_maker_mbed_aliyun_io.DevModel.Devices.{
  Device, DevMgr, DevStatus, is_named, find_devid, find_pkdn, search_dev_by_devid,
  search_dev_by_pkdn, is_found, new_device, insert_dev, is_success, init, create_new, device_create,
  is_too_long, text_of,
}
use nu_maker_mbed_aliyun_io.DevModel.Devices.Changes.{
  delete_first, device_destroy, assign_first, assign, set_dev_enable, set_dev_disable,
  set_dev_status, set_device_secret,
}

-- Device `d` was created before `e`, under another name.
abbrev pub Precedes : Device → Device → Type 0
Precedes d e = (d.devid < e.devid) × (is_named e.product_key e.device_name d ≡ false)

-- Each device precedes those behind it.
abbrev pub IsSorted : List Device → Type 0
IsSorted [] = Unit
IsSorted (d ∷ ds) = All (Precedes d) ds × IsSorted ds

-- The ids grow along the list and stay below the counter, no two devices have the same product key and
-- device name, and the local device is there.
pub record IsRegistry (m : DevMgr) : Type 0 where
  pub sorted : IsSorted m.dev_list
  pub below : All (λ d. d.devid < m.global_devid) m.dev_list
  pub local : is_found (find_devid 0 m.dev_list) ≡ true

module _ (pk dn : List ℕ) where
  pub find_pkdn-none :
      (ds : List Device) → find_pkdn pk dn ds ≡ none → All (λ d. is_named pk dn d ≡ false) ds
  unfolding find_pkdn
  find_pkdn-none [] e = tt
  find_pkdn-none (d ∷ ds) e = elim (Bool-cases (is_named pk dn d)) [
    | inl t ↦ cc (rw (find_pkdn, t) at e)
    | inr f ↦ (f, find_pkdn-none ds (rw (find_pkdn, f) at e))
  ]

All-last :
    (P : Device → Type 0) (ds : List Device) (e : Device) → All P ds → P e → All P (ds ++ (e ∷ []))
All-last P [] e q p = (p, tt)
All-last P (d ∷ ds) e (a, q) p = (a, All-last P ds e q p)

IsSorted-last :
    (ds : List Device) (e : Device)
    → IsSorted ds
    → All (λ d. d.devid < e.devid) ds
    → All (λ d. is_named e.product_key e.device_name d ≡ false) ds
    → IsSorted (ds ++ (e ∷ []))
IsSorted-last [] e s b n = (tt, tt)
IsSorted-last (d ∷ ds) e (p, s) (b, bs) (n, ns) =
    (All-last _ ds e p (b, n), IsSorted-last ds e s bs ns)

All-below : (n : ℕ) (ds : List Device) → All (λ d. d.devid < n) ds → All (λ d. d.devid < n + 1) ds
All-below n [] b = tt
All-below n (d ∷ ds) (b, bs) = (omega (arith, b), All-below n ds bs)

find_devid-last :
    (i : ℕ) (ds : List Device) (e : Device)
    → is_found (find_devid i ds) ≡ true
    → is_found (find_devid i (ds ++ (e ∷ []))) ≡ true
unfolding find_devid
find_devid-last i [] e f = cc
find_devid-last i (d ∷ ds) e f = elim (Bool-cases (d.devid == i)) [
  | inl t ↦ rw (find_devid, t) refl
  | inr t ↦ rw (find_devid, t) (find_devid-last i ds e (rw (find_devid, t) at f))
]

create_new-IsRegistry :
    (alloc : Bool) (type : ℕ) (pk ps dn ds : List ℕ) (m : DevMgr)
    → IsRegistry m
    → IsRegistry (create_new (search_dev_by_pkdn pk dn m) alloc type pk ps dn ds m).2
unfolding create_new search_dev_by_pkdn new_device
create_new-IsRegistry alloc type pk ps dn ds m v =
    elim (Option-cases (find_pkdn pk dn m.dev_list)) [
      | inr (d, e) ↦ rw e v
      | inl e ↦ rw e (
          if_elim (λ (r : State × Option ℕ × DevMgr). IsRegistry r.2) (not alloc) (λ a. v)
            (λ a. record {
              sorted =
                  IsSorted-last m.dev_list _ v.sorted v.below (find_pkdn-none pk dn m.dev_list e);
              below =
                  All-last _ m.dev_list _ (All-below m.global_devid m.dev_list v.below)
                    (omega arith);
              local = find_devid-last 0 m.dev_list _ v.local;
            }))
    ]

All-delete_first :
    (P : Device → Type 0) (i : ℕ) (ds : List Device) → All P ds → All P (delete_first i ds)
unfolding delete_first
All-delete_first P i [] q = tt
All-delete_first P i (d ∷ ds) (p, q) =
    if_elim (All P) (d.devid == i) (λ e. q) (λ e. (p, All-delete_first P i ds q))

IsSorted-delete_first : (i : ℕ) (ds : List Device) → IsSorted ds → IsSorted (delete_first i ds)
unfolding delete_first
IsSorted-delete_first i [] s = tt
IsSorted-delete_first i (d ∷ ds) (p, s) =
    if_elim IsSorted (d.devid == i) (λ e. s)
      (λ e. (All-delete_first _ i ds p, IsSorted-delete_first i ds s))

-- Deleting another device does not hide a device.
pub find_devid-delete_first :
    (i j : ℕ) (ds : List Device) → i ≢ j → find_devid i (delete_first j ds) ≡ find_devid i ds
unfolding delete_first find_devid
find_devid-delete_first i j [] n = refl
find_devid-delete_first i j (d ∷ ds) n =
    let rest = find_devid-delete_first i j ds n in
    elim (Bool-cases (d.devid == j)) [
      | inl e ↦
          let other = ==-false d.devid i (λ h. n (sym h ∙ (==_iff d.devid j).0 e)) in
          rw (delete_first, e, find_devid, other) refl
      | inr e ↦ rw (delete_first, e) (ap (λ r. if d.devid == i then some d else r) rest)
    ]

device_destroy-IsRegistry : (i : ℤ) (m : DevMgr) → IsRegistry m → IsRegistry (device_destroy i m).1
unfolding device_destroy
device_destroy-IsRegistry (negsuc _) m v = v
device_destroy-IsRegistry (pos i) m v =
    let P = λ (r : State × DevMgr). IsRegistry r.1 in
    if_elim P (not (is_found (search_dev_by_devid (pos i) m))) (λ a. v)
      (λ a.
        if_elim P (i == 0) (λ b. v)
          (λ b. record {
            sorted = IsSorted-delete_first i m.dev_list v.sorted;
            below = All-delete_first _ i m.dev_list v.below;
            local =
                ap is_found
                  (find_devid-delete_first 0 i m.dev_list (λ e. cc (b, (==_iff i 0).1 (sym e))))
                ∙ v.local;
          }))

found_if :
    (b c : Bool) (x y : Device) (r q : Option Device)
    → b ≡ c
    → is_found r ≡ is_found q
    → is_found (if b then some x else r) ≡ is_found (if c then some y else q)
found_if true true x y r q h e = refl
found_if true false x y r q h e = cc
found_if false true x y r q h e = cc
found_if false false x y r q h e = e

-- An assignment that leaves the id and the name of a device alone.
pub Keeps : (Device → Device) → Type 0
Keeps f =
    (d : Device)
    → ((f d).devid ≡ d.devid)
      × ((f d).product_key ≡ d.product_key)
      × ((f d).device_name ≡ d.device_name)

module _ (f : Device → Device) (keeps : Keeps f) (i : ℕ) where
  All-assign_first :
      (P : Device → Type 0) (ds : List Device)
      → ((d : Device) → P d → P (f d))
      → All P ds
      → All P (assign_first i f ds)
  unfolding assign_first
  All-assign_first P [] r q = tt
  All-assign_first P (d ∷ ds) r (p, q) =
      if_elim (All P) (d.devid == i) (λ e. (r d p, q)) (λ e. (p, All-assign_first P ds r q))

  Precedes-right : (d e : Device) → Precedes d e → Precedes d (f e)
  unfolding Keeps
  Precedes-right d e (b, n) = let (i, k, l) = keeps e in (rw i b, rw (k, l) n)

  Precedes-left : (d : Device) (ds : List Device) → All (Precedes d) ds → All (Precedes (f d)) ds
  unfolding Keeps is_named
  Precedes-left d [] q = tt
  Precedes-left d (e ∷ es) ((b, n), q) =
      let (i, k, l) = keeps d in ((rw i b, rw (k, l) n), Precedes-left d es q)

  IsSorted-assign_first : (ds : List Device) → IsSorted ds → IsSorted (assign_first i f ds)
  unfolding assign_first
  IsSorted-assign_first [] s = tt
  IsSorted-assign_first (d ∷ ds) (p, s) =
      if_elim IsSorted (d.devid == i) (λ e. (Precedes-left d ds p, s))
        (λ e. (All-assign_first _ ds (Precedes-right d) p, IsSorted-assign_first ds s))

  find_devid-assign_first :
      (j : ℕ) (ds : List Device)
      → is_found (find_devid j (assign_first i f ds)) ≡ is_found (find_devid j ds)
  unfolding assign_first find_devid Keeps
  find_devid-assign_first j [] = refl
  find_devid-assign_first j (d ∷ ds) =
      let rest = find_devid-assign_first j ds in
      let there = find_devid j ds in
      if_elim (λ l. is_found (find_devid j l) ≡ is_found (if d.devid == j then some d else there))
        (d.devid == i)
        (λ e.
          found_if ((f d).devid == j) (d.devid == j) (f d) d there there
            (ap (λ n. n == j) (keeps d).0) refl)
        (λ e. found_if (d.devid == j) (d.devid == j) d d _ there refl rest)

  assign-IsRegistry : (m : DevMgr) → IsRegistry m → IsRegistry (assign (pos i) f m).1
  unfolding assign Keeps
  assign-IsRegistry m v =
      if_elim (λ (r : State × DevMgr). IsRegistry r.1)
        (not (is_found (search_dev_by_devid (pos i) m))) (λ a. v)
        (λ a. record {
          sorted = IsSorted-assign_first m.dev_list v.sorted;
          below = All-assign_first _ m.dev_list (λ d b. rw (keeps d).0 b) v.below;
          local = find_devid-assign_first 0 m.dev_list ∙ v.local;
        })

assign_any-IsRegistry :
    (f : Device → Device)
    → Keeps f
    → (i : ℤ) (m : DevMgr) → IsRegistry m
    → IsRegistry (assign i f m).1
unfolding assign
assign_any-IsRegistry f keeps (negsuc _) m v = v
assign_any-IsRegistry f keeps (pos i) m v = assign-IsRegistry f keeps i m v

-- The calls that change the list.
pub data Call : Type 0 where
  creates : Bool → ℕ → Option (List ℕ) → Option (List ℕ) → Option (List ℕ) → Option (List ℕ) → Call
  destroys enables disables : ℤ → Call
  statuses : ℤ → DevStatus → Call
  secrets : ℤ → Option (List ℕ) → Call

unfoldable pub step : DevMgr → Call → DevMgr
step m (creates alloc type pk ps dn ds) = (device_create alloc type pk ps dn ds m).2
step m (destroys i) = (device_destroy i m).1
step m (enables i) = (set_dev_enable i m).1
step m (disables i) = (set_dev_disable i m).1
step m (statuses i s) = (set_dev_status i s m).1
step m (secrets i t) = (set_device_secret i t m).1

unfoldable pub run : DevMgr → List Call → DevMgr
run m [] = m
run m (k ∷ ks) = run (step m k) ks

device_create-IsRegistry :
    (alloc : Bool) (type : ℕ) (pk ps dn ds : Option (List ℕ)) (m : DevMgr)
    → IsRegistry m
    → IsRegistry (device_create alloc type pk ps dn ds m).2
unfolding device_create
device_create-IsRegistry alloc type none ps dn ds m v = v
device_create-IsRegistry alloc type (some pk) none dn ds m v = v
device_create-IsRegistry alloc type (some pk) (some ps) none ds m v = v
device_create-IsRegistry alloc type (some pk) (some ps) (some dn) ds m v =
    let P = λ (r : State × Option ℕ × DevMgr). IsRegistry r.2 in
    if_elim P (ltb 20 (length pk) || (ltb 64 (length ps) || ltb 32 (length dn))) (λ a. v)
      (λ a.
        if_elim P (is_too_long 64 ds) (λ b. v)
          (λ b. create_new-IsRegistry alloc type pk ps dn (text_of ds) m v))

step-IsRegistry : (m : DevMgr) (k : Call) → IsRegistry m → IsRegistry (step m k)
unfolding step set_dev_enable set_dev_disable set_dev_status set_device_secret Keeps
step-IsRegistry m (creates alloc type pk ps dn ds) v =
    device_create-IsRegistry alloc type pk ps dn ds m v
step-IsRegistry m (destroys i) v = device_destroy-IsRegistry i m v
step-IsRegistry m (enables i) v = assign_any-IsRegistry _ (λ d. (refl, refl, refl)) i m v
step-IsRegistry m (disables i) v = assign_any-IsRegistry _ (λ d. (refl, refl, refl)) i m v
step-IsRegistry m (statuses i s) v = assign_any-IsRegistry _ (λ d. (refl, refl, refl)) i m v
step-IsRegistry m (secrets i none) v = v
step-IsRegistry m (secrets i (some t)) v =
    if_elim (λ (r : State × DevMgr). IsRegistry r.1) (ltb 64 (length t)) (λ a. v)
      (λ a. assign_any-IsRegistry _ (λ d. (refl, refl, refl)) i m v)

pub run_any-IsRegistry : (m : DevMgr) (ks : List Call) → IsRegistry m → IsRegistry (run m ks)
unfolding run
run_any-IsRegistry m [] v = v
run_any-IsRegistry m (k ∷ ks) v = run_any-IsRegistry (step m k) ks (step-IsRegistry m k v)

abbrev fresh : DevMgr
fresh = record { mutex = true; global_devid = 1; dev_list = [] }

insert_dev-IsRegistry :
    (alloc : Bool) (type : ℕ) (pk dn : List ℕ)
    → is_success (insert_dev alloc 0 type pk dn fresh).0 ≡ true
    → IsRegistry (insert_dev alloc 0 type pk dn fresh).1
unfolding insert_dev find_devid new_device
insert_dev-IsRegistry alloc type pk dn =
    let P = λ (r : State × DevMgr). is_success r.0 ≡ true → IsRegistry r.1 in
    if_elim P (ltb 20 (length pk)) (λ a h. cc)
      (λ a.
        if_elim P (ltb 32 (length dn)) (λ b h. cc)
          (λ b.
            if_elim P (not alloc) (λ c h. cc)
              (λ c h. record { sorted = (tt, tt); below = (omega arith, tt); local = refl })))

init-IsRegistry :
    (mutex alloc : Bool) (type : ℕ) (pk dn : List ℕ)
    → (init mutex alloc type pk dn).0 ≡ success_return
    → IsRegistry (init mutex alloc type pk dn).1
unfolding init
init-IsRegistry mutex alloc type pk dn =
    let P = λ (r : State × DevMgr). r.0 ≡ success_return → IsRegistry r.1 in
    if_elim P (not mutex) (λ a h. cc)
      (λ a.
        if_elim P (is_success (insert_dev alloc 0 type pk dn fresh).0)
          (λ b h. insert_dev-IsRegistry alloc type pk dn b) (λ b h. cc b))

-- After a successful dm_mgr_init, over any sequence of creations, deletions and assignments, failed
-- calls included: the ids of the devices grow along the list and stay below the counter, no two devices
-- share product key and device name, and the local device is still there.
pub run-init-IsRegistry :
    (mutex alloc : Bool) (type : ℕ) (pk dn : List ℕ) (ks : List Call)
    → (init mutex alloc type pk dn).0 ≡ success_return
    → IsRegistry (run (init mutex alloc type pk dn).1 ks)
run-init-IsRegistry mutex alloc type pk dn ks ok =
    run_any-IsRegistry (init mutex alloc type pk dn).1 ks
      (init-IsRegistry mutex alloc type pk dn ok)

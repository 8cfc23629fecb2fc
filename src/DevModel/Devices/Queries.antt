-- ===== src/DevModel/Devices/Queries.antt =====
-- Looking up a device that was created or deleted.
use nu_maker_mbed_aliyun_io.Base.{
  ℕ, ◌<◌, ◌≡◌, refl, ap, subst, arith, ◌||◌, not, Bool, true, false, ltb, ◌==◌, ==_iff, ==-false,
  if_elim, Option, none, some, List, [], ◌∷◌, ◌++◌, length, All, pos, same_bytes_refl, ◌≢◌,
  Bool-cases, Option-cases, inl, inr,
}
use nu_maker_mbed_aliyun_io.DevModel.State.{State, success_return}
use nu_maker_mbed_aliyun_io.DevModel.Devices.{
  Device, DevMgr, DevStatus, authorized, is_named, find_devid, find_pkdn, search_dev_by_devid,
  search_dev_by_pkdn, is_found, new_device, create_new, device_create, is_too_long, text_of,
  device_query, found_devid,
}
use nu_maker_mbed_aliyun_io.DevModel.Devices.Changes.{
  delete_first, device_destroy, search_device_by_devid, copy_over, copy_names,
}
use nu_maker_mbed_aliyun_io.DevModel.Devices.Registry.{
  IsRegistry, IsSorted, Precedes, find_pkdn-none, find_devid-delete_first,
}

find_pkdn-last :
    (pk dn : List ℕ) (ds : List Device) (e : Device)
    → All (λ d. is_named pk dn d ≡ false) ds
    → is_named pk dn e ≡ true
    → find_pkdn pk dn (ds ++ (e ∷ [])) ≡ some e
unfolding find_pkdn
find_pkdn-last pk dn [] e n t = rw (find_pkdn, t) refl
find_pkdn-last pk dn (d ∷ ds) e (f, n) t = rw (find_pkdn, f) (find_pkdn-last pk dn ds e n t)

find_devid-last :
    (ds : List Device) (e : Device)
    → All (λ d. d.devid < e.devid) ds
    → find_devid e.devid (ds ++ (e ∷ [])) ≡ some e
unfolding find_devid
find_devid-last [] e b = rw (find_devid, (==_iff e.devid e.devid).1 refl) refl
find_devid-last (d ∷ ds) e (b, bs) =
    rw (find_devid, ==-false d.devid e.devid (λ h. omega (arith, b, h))) (find_devid-last ds e bs)

is_named-new :
    (id type : ℕ) (pk ps dn ds : List ℕ) (s : DevStatus)
    → is_named pk dn (new_device id type pk ps dn ds s) ≡ true
unfolding is_named new_device
is_named-new id type pk ps dn ds s = rw (same_bytes_refl pk, same_bytes_refl dn) refl

-- What is known after a creation: the id names the device, and so does its name.
abbrev IsLookedUp : List ℕ → List ℕ → List ℕ → State × Option ℕ × DevMgr → Type 0
IsLookedUp pk dn ds r =
    r.0 ≡ success_return
    → (id : ℕ) × (r.1 ≡ some id)
      × (device_query pk dn r.2 ≡ (success_return, some id))
      × ((a b c : List ℕ)
          → search_device_by_devid (some a) (some b) (some c) (pos id) r.2
            ≡ (success_return, some (copy_over pk a, copy_over dn b, copy_over ds c)))

create_new-IsLookedUp :
    (alloc : Bool) (type : ℕ) (pk ps dn ds : List ℕ) (m : DevMgr)
    → IsRegistry m
    → IsLookedUp pk dn ds (create_new (search_dev_by_pkdn pk dn m) alloc type pk ps dn ds m)
unfolding create_new search_dev_by_pkdn device_query found_devid search_device_by_devid
    search_dev_by_devid copy_names new_device
create_new-IsLookedUp alloc type pk ps dn ds m v =
    let new = new_device m.global_devid type pk ps dn ds authorized in
    elim (Option-cases (find_pkdn pk dn m.dev_list)) [
      | inr (d, e) ↦ rw e (λ h. cc)
      | inl e ↦
          let named =
            find_pkdn-last pk dn m.dev_list new (find_pkdn-none pk dn m.dev_list e)
              (is_named-new m.global_devid type pk ps dn ds authorized) in
          let known = find_devid-last m.dev_list new v.below in
          rw e (
            if_elim (IsLookedUp pk dn ds) (not alloc) (λ a h. cc)
              (λ a h.
                (m.global_devid, refl, ap found_devid named, λ a b c. ap (copy_names a b c) known)))
    ]

-- If the list is a registry, as it is after dm_mgr_init and any calls: if dm_mgr_device_create succeeds, it
-- returns an id under which dm_mgr_search_device_by_devid copies the product key, the device name and the
-- secret to the front of whatever arrays it is given, and a query for the product key and the device name
-- returns that id.
pub device_create-IsLookedUp :
    (alloc : Bool) (type : ℕ) (pk ps dn : List ℕ) (ds : Option (List ℕ)) (m : DevMgr)
    → IsRegistry m
    → (device_create alloc type (some pk) (some ps) (some dn) ds m).0 ≡ success_return
    → (id : ℕ) × ((device_create alloc type (some pk) (some ps) (some dn) ds m).1 ≡ some id)
      × (device_query pk dn (device_create alloc type (some pk) (some ps) (some dn) ds m).2
          ≡ (success_return, some id))
      × ((a b c : List ℕ)
          → search_device_by_devid
              (some a)
              (some b)
              (some c)
              (pos id)
              (device_create alloc type (some pk) (some ps) (some dn) ds m).2
            ≡ (success_return, some (copy_over pk a, copy_over dn b, copy_over (text_of ds) c)))
unfolding device_create
device_create-IsLookedUp alloc type pk ps dn ds m v =
    let P = IsLookedUp pk dn (text_of ds) in
    if_elim P (ltb 20 (length pk) || (ltb 64 (length ps) || ltb 32 (length dn))) (λ a h. cc)
      (λ a.
        if_elim P (is_too_long 64 ds) (λ b h. cc)
          (λ b. create_new-IsLookedUp alloc type pk ps dn (text_of ds) m v))

-- In a list whose ids grow, a deleted id is gone.
find_devid-behind :
    (d : Device) (ds : List Device) → All (Precedes d) ds → find_devid d.devid ds ≡ none
unfolding find_devid
find_devid-behind d [] p = refl
find_devid-behind d (e ∷ es) ((b, _), p) =
    rw (find_devid, ==-false e.devid d.devid (λ h. omega (arith, b, h))) (find_devid-behind d es p)

find_devid-deleted :
    (i : ℕ) (ds : List Device) → IsSorted ds → find_devid i (delete_first i ds) ≡ none
unfolding delete_first find_devid
find_devid-deleted i [] s = refl
find_devid-deleted i (d ∷ ds) (p, s) = elim (Bool-cases (d.devid == i)) [
  | inl e ↦
      rw (delete_first, e)
        (subst (λ j. find_devid j ds ≡ none) ((==_iff d.devid i).0 e) (find_devid-behind d ds p))
  | inr e ↦ rw (delete_first, e, find_devid, e) (find_devid-deleted i ds s)
]

-- If the list is a registry, as it is after dm_mgr_init and any calls: a successful dm_mgr_device_destroy
-- leaves no device with that id, which is not the local device's, and every other device as it was.
pub device_destroy-forgets :
    (i : ℕ) (m : DevMgr)
    → IsRegistry m
    → (device_destroy (pos i) m).0 ≡ success_return
    → (i ≢ 0)
      × (search_dev_by_devid (pos i) (device_destroy (pos i) m).1 ≡ none)
      × ((j : ℕ)
          → j ≢ i
          → search_dev_by_devid (pos j) (device_destroy (pos i) m).1
            ≡ search_dev_by_devid (pos j) m)
unfolding device_destroy search_dev_by_devid
device_destroy-forgets i m v =
    let P = λ (r : State × DevMgr).
      r.0 ≡ success_return
      → (i ≢ 0)
        × (find_devid i r.1.dev_list ≡ none)
        × ((j : ℕ) → j ≢ i → find_devid j r.1.dev_list ≡ find_devid j m.dev_list) in
    if_elim P (not (is_found (find_devid i m.dev_list))) (λ a h. cc)
      (λ a.
        if_elim P (i == 0) (λ b h. cc)
          (λ b h. (
            (λ e. cc (b, (==_iff i 0).1 e)),
            find_devid-deleted i m.dev_list v.sorted,
            λ j n. find_devid-delete_first j i m.dev_list n,
          )))

-- ===== src/DevModel/Devices/Changes.antt =====
-- eng/dev_model/dm_manager.c: deleting a device, its fields, and walking over the devices.
use nu_maker_mbed_aliyun_io.Base.{
  ℕ, zero, suc, ◌||◌, not, Bool, true, false, ltb, ◌==◌, if◌then◌else◌, Option, none, some, List,
  [], ◌∷◌, ◌++◌, drop, length, ℤ, pos, negsuc,
}
use nu_maker_mbed_aliyun_io.DevModel.State.{
  State, success_return, user_input_invalid, user_input_devid, device_not_found,
  subd_not_deleteable,
}
use nu_maker_mbed_aliyun_io.DevModel.Devices.{
  Device, DevMgr, Avail, avail_enable, avail_disable, DevStatus, search_dev_by_devid,
  search_dev_by_pkdn, is_found, local_node_devid, secret_len, product_key_len, device_name_len,
}

-- `list_del` of the first node with this id.
unfoldable pub delete_first : ℕ → List Device → List Device
delete_first devid [] = []
delete_first devid (d ∷ ds) =
    let rest = delete_first devid ds in if d.devid == devid then ds else d ∷ rest

-- dm_mgr_device_destroy
unfoldable pub device_destroy : ℤ → DevMgr → State × DevMgr
device_destroy (negsuc _) m = (user_input_devid, m)
device_destroy (pos devid) m =
    if not (is_found (search_dev_by_devid (pos devid) m))
    then (device_not_found, m)
    else if devid == local_node_devid
    then (subd_not_deleteable, m)
    else (success_return, record m { dev_list = delete_first devid m.dev_list })

-- The first node with this id after an assignment to one of its fields.
unfoldable pub assign_first : ℕ → (Device → Device) → List Device → List Device
assign_first devid f [] = []
assign_first devid f (d ∷ ds) =
    let rest = assign_first devid f ds in if d.devid == devid then f d ∷ ds else d ∷ rest

-- The common part of the functions that assign to a field of a device.
unfoldable pub assign : ℤ → (Device → Device) → DevMgr → State × DevMgr
assign (negsuc _) f m = (user_input_invalid, m)
assign (pos devid) f m =
    if not (is_found (search_dev_by_devid (pos devid) m))
    then (device_not_found, m)
    else (success_return, record m { dev_list = assign_first devid f m.dev_list })

unfoldable pub set_dev_enable : ℤ → DevMgr → State × DevMgr
set_dev_enable devid m = assign devid (λ d. record d { status = avail_enable }) m

unfoldable pub set_dev_disable : ℤ → DevMgr → State × DevMgr
set_dev_disable devid m = assign devid (λ d. record d { status = avail_disable }) m

unfoldable pub set_dev_status : ℤ → DevStatus → DevMgr → State × DevMgr
set_dev_status devid s m = assign devid (λ d. record d { dev_status = s }) m

unfoldable pub set_device_secret : ℤ → Option (List ℕ) → DevMgr → State × DevMgr
set_device_secret devid none m = (user_input_invalid, m)
set_device_secret devid (some secret) m =
    if ltb secret_len (length secret)
    then (user_input_invalid, m)
    else assign devid (λ d. record d { device_secret = secret }) m

-- A field of a device that was found; `none` stands for what the caller's variable held before.
unfoldable pub field_of {ℓ} : {A : Type ℓ} → (Device → A) → Option Device → State × Option A
field_of f none = (device_not_found, none)
field_of f (some d) = (success_return, some (f d))

unfoldable pub get_dev_type : ℤ → DevMgr → State × Option ℕ
get_dev_type (negsuc _) m = (user_input_invalid, none)
get_dev_type (pos devid) m = field_of (λ d. d.dev_type) (search_dev_by_devid (pos devid) m)

unfoldable pub get_dev_status : ℤ → DevMgr → State × Option DevStatus
get_dev_status (negsuc _) m = (user_input_invalid, none)
get_dev_status (pos devid) m = field_of (λ d. d.dev_status) (search_dev_by_devid (pos devid) m)

unfoldable pub get_dev_avail : Option (List ℕ) → Option (List ℕ) → DevMgr → State × Option Avail
get_dev_avail (some pk) (some dn) m =
    if ltb product_key_len (length pk) || ltb device_name_len (length dn)
    then (user_input_invalid, none)
    else field_of (λ d. d.status) (search_dev_by_pkdn pk dn m)
get_dev_avail _ _ m = (user_input_invalid, none)

-- `memcpy(buffer, text, strlen(text))`: the terminator is not copied.
abbrev pub copy_over : List ℕ → List ℕ → List ℕ
copy_over text buffer = text ++ drop (length text) buffer

-- The texts of a device copied over what the caller's arrays hold.
unfoldable pub copy_names :
    List ℕ → List ℕ → List ℕ → Option Device → State × Option (List ℕ × List ℕ × List ℕ)
copy_names pk dn ds none = (device_not_found, some (pk, dn, ds))
copy_names pk dn ds (some d) = (
  success_return,
  some (copy_over d.product_key pk, copy_over d.device_name dn, copy_over d.device_secret ds),
)

-- dm_mgr_search_device_by_devid: the status, and what the arrays for the product key, the device name and
-- the secret hold afterwards (`none` if one of the pointers is NULL).
unfoldable pub search_device_by_devid :
    Option (List ℕ)
    → Option (List ℕ)
    → Option (List ℕ)
    → ℤ
    → DevMgr
    → State × Option (List ℕ × List ℕ × List ℕ)
search_device_by_devid (some pk) (some dn) (some ds) devid m =
    copy_names pk dn ds (search_dev_by_devid devid m)
search_device_by_devid _ _ _ devid m = (user_input_invalid, none)

-- dm_mgr_device_number
unfoldable pub device_number : DevMgr → ℕ
device_number m = length m.dev_list

unfoldable pub nth_devid : ℕ → List Device → Option ℕ
nth_devid index [] = none
nth_devid zero (d ∷ ds) = some d.devid
nth_devid (suc index) (d ∷ ds) = nth_devid index ds

abbrev pub status_of : Option ℕ → State × Option ℕ
status_of none = (device_not_found, none)
status_of (some devid) = (success_return, some devid)

-- dm_mgr_get_devid_by_index
unfoldable pub get_devid_by_index : ℤ → DevMgr → State × Option ℕ
get_devid_by_index (negsuc _) m = (user_input_invalid, none)
get_devid_by_index (pos index) m = status_of (nth_devid index m.dev_list)

-- The loop of dm_mgr_get_next_devid; `seen` is whether the node before had the id.
unfoldable pub devid_after : Bool → ℕ → List Device → Option ℕ
devid_after seen devid [] = none
devid_after true devid (d ∷ ds) = some d.devid
devid_after false devid (d ∷ ds) = devid_after (d.devid == devid) devid ds

-- dm_mgr_get_next_devid
unfoldable pub get_next_devid : ℤ → DevMgr → State × Option ℕ
get_next_devid (negsuc _) m = (user_input_invalid, none)
get_next_devid (pos devid) m = status_of (devid_after false devid m.dev_list)

-- ===== src/DevModel/Devices.antt =====
-- eng/dev_model/dm_manager.c: the devices that the device model knows, the local one and its
-- sub-devices. The mutex and allocations are arguments. A device id is an `int`; ids that are handed out
-- are not negative, and the counter is not followed past 2^31 - 1, where C leaves the increment undefined.
pub mod Changes
pub mod Registry
pub mod Queries
pub mod Walk
mod Runs
use nu_maker_mbed_aliyun_io.Base.{
  ℕ, zero, suc, ◌+◌, ◌&&◌, ◌||◌, not, Bool, true, false, ltb, leb, ◌==◌, if◌then◌else◌, Option,
  none, some, List, [], ◌∷◌, ◌++◌, length, ℤ, pos, negsuc, same_bytes,
}
use nu_maker_mbed_aliyun_io.DevModel.State.{
  State, success_return, user_input_invalid, malloc_failed, mutex_create_failed, user_input_pk,
  user_input_dn, user_input_devid, device_not_found, device_already_exist, subd_not_deleteable,
}

abbrev pub product_key_len : ℕ
product_key_len = 20

abbrev pub device_name_len : ℕ
device_name_len = 32

abbrev pub secret_len : ℕ
secret_len = 64

abbrev pub local_node_devid : ℕ
local_node_devid = 0

-- iotx_dm_dev_avail_t
pub data Avail : Type 0 where
  avail_enable avail_disable : Avail

-- iotx_dm_dev_status_t
pub data DevStatus : Type 0 where
  unauthorized authorized registered attached logined online : DevStatus

-- dm_mgr_dev_node_t; a text is the characters before its terminator.
pub record Device : Type 0 where
  pub devid : ℕ
  pub dev_type : ℕ
  pub product_key : List ℕ
  pub product_secret : List ℕ
  pub device_name : List ℕ
  pub device_secret : List ℕ
  pub status : Avail
  pub dev_status : DevStatus

-- dm_mgr_ctx
pub record DevMgr : Type 0 where
  pub mutex : Bool
  pub global_devid : ℕ
  pub dev_list : List Device

abbrev pub zeroed : DevMgr
zeroed = record { mutex = false; global_devid = 0; dev_list = [] }

-- The test of both texts in _dm_mgr_search_dev_by_pkdn.
unfoldable pub is_named : List ℕ → List ℕ → Device → Bool
is_named pk dn d = same_bytes d.product_key pk && same_bytes d.device_name dn

unfoldable pub find_devid : ℕ → List Device → Option Device
find_devid devid [] = none
find_devid devid (d ∷ ds) =
    let rest = find_devid devid ds in if d.devid == devid then some d else rest

-- _dm_mgr_search_dev_by_devid; no device has a negative id.
unfoldable pub search_dev_by_devid : ℤ → DevMgr → Option Device
search_dev_by_devid (pos devid) m = find_devid devid m.dev_list
search_dev_by_devid (negsuc _) m = none

unfoldable pub find_pkdn : List ℕ → List ℕ → List Device → Option Device
find_pkdn pk dn [] = none
find_pkdn pk dn (d ∷ ds) =
    let rest = find_pkdn pk dn ds in if is_named pk dn d then some d else rest

-- _dm_mgr_search_dev_by_pkdn
unfoldable pub search_dev_by_pkdn : List ℕ → List ℕ → DevMgr → Option Device
search_dev_by_pkdn pk dn m = find_pkdn pk dn m.dev_list

abbrev pub is_found : Option Device → Bool
is_found none = false
is_found (some d) = true

-- The node that memset clears, with its id, type and texts.
unfoldable pub new_device : ℕ → ℕ → List ℕ → List ℕ → List ℕ → List ℕ → DevStatus → Device
new_device devid type pk ps dn ds status = record {
  devid = devid;
  dev_type = type;
  product_key = pk;
  product_secret = ps;
  device_name = dn;
  device_secret = ds;
  status = avail_enable;
  dev_status = status;
}

-- _dm_mgr_insert_dev
unfoldable pub insert_dev : Bool → ℕ → ℕ → List ℕ → List ℕ → DevMgr → State × DevMgr
insert_dev alloc devid type pk dn m =
    if ltb product_key_len (length pk)
    then (user_input_pk, m)
    else if ltb device_name_len (length dn)
    then (user_input_dn, m)
    else if is_found (find_devid devid m.dev_list)
    then (device_already_exist, m)
    else if not alloc
    then (malloc_failed, m)
    else (
      success_return,
      record m { dev_list = m.dev_list ++ (new_device devid type pk [] dn [] unauthorized ∷ []) },
    )

abbrev pub is_success : State → Bool
is_success success_return = true
is_success _ = false

-- dm_mgr_init, with the product key and the device name of the local device, whose type is `type`.
unfoldable pub init : Bool → Bool → ℕ → List ℕ → List ℕ → State × DevMgr
init mutex alloc type pk dn =
    if not mutex
    then (mutex_create_failed, zeroed)
    else let (res, m) =
        insert_dev alloc local_node_devid type pk dn
          (record { mutex = true; global_devid = local_node_devid + 1; dev_list = [] }) in
      if is_success res then (success_return, m) else (res, zeroed)

-- dm_mgr_deinit
unfoldable pub deinit : DevMgr → State × DevMgr
deinit m = (success_return, record m { dev_list = [] })

-- The id of a device that was found.
unfoldable pub found_devid : Option Device → State × Option ℕ
found_devid none = (device_not_found, none)
found_devid (some d) = (success_return, some d.devid)

-- dm_mgr_device_query
unfoldable pub device_query : List ℕ → List ℕ → DevMgr → State × Option ℕ
device_query pk dn m = found_devid (search_dev_by_pkdn pk dn m)

-- dm_mgr_search_device_by_pkdn
unfoldable pub search_device_by_pkdn : Option (List ℕ) → Option (List ℕ) → DevMgr → State × Option ℕ
search_device_by_pkdn (some pk) (some dn) m = found_devid (search_dev_by_pkdn pk dn m)
search_device_by_pkdn _ _ m = (user_input_invalid, none)

-- The tests of the texts in dm_mgr_device_create: not NULL, and short enough.
unfoldable pub is_too_long : ℕ → Option (List ℕ) → Bool
is_too_long limit none = false
is_too_long limit (some text) = ltb limit (length text)

abbrev pub text_of : Option (List ℕ) → List ℕ
text_of none = []
text_of (some text) = text

-- dm_mgr_device_create after the search: the status, the id, and the devices.
unfoldable pub create_new :
    Option Device
    → Bool
    → ℕ
    → List ℕ
    → List ℕ
    → List ℕ
    → List ℕ
    → DevMgr
    → State × Option ℕ × DevMgr
create_new (some d) alloc type pk ps dn ds m = (device_already_exist, some d.devid, m)
create_new none alloc type pk ps dn ds m = if not alloc then (malloc_failed, none, m) else (
  success_return,
  some m.global_devid,
  record m {
    global_devid = m.global_devid + 1;
    dev_list = m.dev_list ++ (new_device m.global_devid type pk ps dn ds authorized ∷ []);
  },
)

-- dm_mgr_device_create
unfoldable pub device_create :
    Bool
    → ℕ
    → Option (List ℕ)
    → Option (List ℕ)
    → Option (List ℕ)
    → Option (List ℕ)
    → DevMgr
    → State × Option ℕ × DevMgr
device_create alloc type (some pk) (some ps) (some dn) ds m =
    if ltb product_key_len (length pk)
      || (ltb secret_len (length ps) || ltb device_name_len (length dn))
    then (user_input_invalid, none, m)
    else if is_too_long secret_len ds
    then (user_input_invalid, none, m)
    else create_new (search_dev_by_pkdn pk dn m) alloc type pk ps dn (text_of ds) m
device_create alloc type _ _ _ ds m = (user_input_invalid, none, m)

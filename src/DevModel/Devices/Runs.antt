-- ===== src/DevModel/Devices/Runs.antt =====
-- Tests, and the theorems on the devices applied to concrete lists.
use nu_maker_mbed_aliyun_io.Base.{ℕ, ◌≡◌, refl, true, none, some, List, [], ◌∷◌, pos, negsuc}
use nu_maker_mbed_aliyun_io.DevModel.State.{success_return}
use nu_maker_mbed_aliyun_io.DevModel.Devices.{
  DevMgr, init, device_create, text_of, device_query, attached, insert_dev, find_devid, find_pkdn,
  search_dev_by_pkdn, create_new, is_named, is_too_long, new_device,
}
use nu_maker_mbed_aliyun_io.DevModel.Devices.Changes.{search_device_by_devid, copy_over}
use nu_maker_mbed_aliyun_io.DevModel.Devices.Registry.{
  IsRegistry, Call, creates, destroys, statuses, run, run-init-IsRegistry, run_any-IsRegistry,
}
use nu_maker_mbed_aliyun_io.DevModel.Devices.Queries.{device_create-IsLookedUp}

abbrev key : List ℕ
key = b'k' ∷ []

abbrev lamp : List ℕ
lamp = b'l' ∷ []

abbrev door : List ℕ
door = b'd' ∷ []

abbrev secret : List ℕ
secret = b's' ∷ b's' ∷ []

-- Two sub-devices are created, the first is deleted, and one call is refused.
abbrev calls : List Call
calls =
    creates true 1 (some key) (some secret) (some lamp) none
    ∷ creates true 1 (some key) (some secret) (some door) (some secret)
    ∷ destroys (pos 1)
    ∷ statuses (pos 2) attached
    ∷ destroys (negsuc 0)
    ∷ []

abbrev home : DevMgr
home = (init true true 0 key key).1

abbrev full : DevMgr
full = run home calls

run-init-IsRegistry_example : IsRegistry (run home calls)
unfolding init insert_dev find_devid
run-init-IsRegistry_example = run-init-IsRegistry true true 0 key key calls refl

home-IsRegistry : IsRegistry home
unfolding init insert_dev find_devid run
home-IsRegistry = run-init-IsRegistry true true 0 key key [] refl

device_create-IsLookedUp_example :
    (id : ℕ) × ((device_create true 1 (some key) (some secret) (some lamp) none home).1 ≡ some id)
    × (device_query key lamp (device_create true 1 (some key) (some secret) (some lamp) none home).2
        ≡ (success_return, some id))
    × ((a b c : List ℕ)
        → search_device_by_devid
            (some a)
            (some b)
            (some c)
            (pos id)
            (device_create true 1 (some key) (some secret) (some lamp) none home).2
          ≡ (success_return, some (copy_over key a, copy_over lamp b, copy_over (text_of none) c)))
unfolding init insert_dev find_devid device_create search_dev_by_pkdn find_pkdn is_named create_new
    new_device is_too_long
device_create-IsLookedUp_example =
    device_create-IsLookedUp true 1 key secret lamp none home home-IsRegistry refl

full-IsRegistry : IsRegistry full
full-IsRegistry = run_any-IsRegistry home calls home-IsRegistry

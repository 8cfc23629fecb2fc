-- ===== src/DevModel/Devices/Walk.antt =====
-- Walking over the devices by index and by the next id.
use nu_maker_mbed_aliyun_io.Base.{
  ℕ, zero, suc, ◌<◌, ◌≡◌, refl, ap, subst, ◌∙◌, arith, true, false, ==_iff, ==-false, Option, none,
  some, List, [], ◌∷◌, All, pos,
}
use nu_maker_mbed_aliyun_io.DevModel.State.{success_return}
use nu_maker_mbed_aliyun_io.DevModel.Devices.{Device, DevMgr}
use nu_maker_mbed_aliyun_io.DevModel.Devices.Changes.{
  nth_devid, devid_after, get_devid_by_index, get_next_devid, status_of,
}
use nu_maker_mbed_aliyun_io.DevModel.Devices.Registry.{IsRegistry, IsSorted, Precedes}

some_inj : (a b : ℕ) → some a ≡ some b → a ≡ b
some_inj a b e = ap (λ o. elim o [ none ↦ 0 | some c ↦ c ]) e

nth_devid-above :
    (d : Device) (k id : ℕ) (ds : List Device)
    → All (Precedes d) ds
    → nth_devid k ds ≡ some id
    → d.devid < id
unfolding nth_devid
nth_devid-above d zero id [] p e = cc
nth_devid-above d (suc k) id [] p e = cc
nth_devid-above d zero id (n ∷ ns) ((b, _), p) e =
    subst (λ j. d.devid < j) (some_inj n.devid id e) b
nth_devid-above d (suc k) id (n ∷ ns) (_, p) e = nth_devid-above d k id ns p e

devid_after-seen : (id : ℕ) (ds : List Device) → devid_after true id ds ≡ nth_devid 0 ds
unfolding devid_after nth_devid
devid_after-seen id [] = refl
devid_after-seen id (d ∷ ds) = refl

-- In a list whose ids grow, the id behind the one at an index is the one at the next index.
devid_after-nth_devid :
    (k id : ℕ) (ds : List Device)
    → IsSorted ds
    → nth_devid k ds ≡ some id
    → devid_after false id ds ≡ nth_devid (suc k) ds
unfolding devid_after nth_devid
devid_after-nth_devid zero id [] s e = refl
devid_after-nth_devid (suc k) id [] s e = refl
devid_after-nth_devid zero id (d ∷ ds) s e =
    let same = (==_iff d.devid id).1 (some_inj d.devid id e) in
    ap (λ b. devid_after b id ds) same ∙ devid_after-seen id ds
devid_after-nth_devid (suc k) id (d ∷ ds) (p, s) e =
    let above = nth_devid-above d k id ds p e in
    let other = ==-false d.devid id (λ h. omega (arith, above, h)) in
    ap (λ b. devid_after b id ds) other ∙ devid_after-nth_devid k id ds s e

status_of-some : (o : Option ℕ) (id : ℕ) → status_of o ≡ (success_return, some id) → o ≡ some id
status_of-some none id e = cc (ap (λ r. r.0) e)
status_of-some (some j) id e = ap (λ r. r.1) e

-- If the list is a registry, as it is after dm_mgr_init and any calls, dm_mgr_get_next_devid and
-- dm_mgr_get_devid_by_index walk over the devices alike: behind the id at an index comes the one at the
-- next index, and both report the end together.
pub get_next_devid-by_index :
    (k id : ℕ) (m : DevMgr)
    → IsRegistry m
    → get_devid_by_index (pos k) m ≡ (success_return, some id)
    → get_next_devid (pos id) m ≡ get_devid_by_index (pos (suc k)) m
unfolding get_next_devid get_devid_by_index
get_next_devid-by_index k id m v e =
    ap status_of (devid_after-nth_devid k id m.dev_list v.sorted (status_of-some _ id e))

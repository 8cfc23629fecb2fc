-- ===== src/Ota/Fota/Start.antt =====
-- The tests that dm_fota_perform_sync makes before it starts.
use nu_maker_mbed_aliyun_io.Base.{
  ℕ, ◌≡◌, ◌≢◌, refl, ap, sym, ◌∙◌, Bool, true, not, ◌||◌, ◌==◌, ==-false, if_elim, ◌⊎◌, inl, inr,
  Option, none, some, List, [],
}
use nu_maker_mbed_aliyun_io.Ota.{Ota}
use nu_maker_mbed_aliyun_io.Ota.Fota.{
  Turn, Updated, Verdict, success, invalid_input, no_handle, sync_with, perform_sync,
}

-- With a buffer and an update it starts.
pub perform_sync-starts :
    (md5_of : List ℕ → List ℕ) (output_len retry_max : ℕ) (ts : List Turn) (o : Ota)
    → output_len ≢ 0
    → perform_sync md5_of true output_len true retry_max ts o
      ≡ sync_with md5_of output_len retry_max ts o
unfolding perform_sync
perform_sync-starts md5_of output_len retry_max ts o n = rw (==-false output_len 0 n) refl

-- Nothing is stored, and it does not succeed.
abbrev pub IsRefused : Updated → Type 0
IsRefused u = (u.stored ≡ []) × (u.verdict ≢ success)

ended-IsRefused :
    (o : Ota) (v : Verdict) (u : Updated)
    → v ≢ success
    → some (record { ota = o; stored = []; verdict = v }) ≡ some u
    → IsRefused u
ended-IsRefused o v u n e =
    let d : Updated = record { ota = o; stored = []; verdict = v } in
    let same : d ≡ u = ap (λ r. elim r as (λ _. Updated) [ none ↦ d | some x ↦ x ]) e in
    (sym (ap (λ x. x.stored) same), λ f. n (ap (λ x. x.verdict) same ∙ f))

-- It ends as the update does that it starts, or it is refused.
pub perform_sync-or :
    (md5_of : List ℕ → List ℕ) (output : Bool) (output_len : ℕ) (handle : Bool) (retry_max : ℕ)
    (ts : List Turn) (o : Ota) (u : Updated)
    → perform_sync md5_of output output_len handle retry_max ts o ≡ some u
    → (sync_with md5_of output_len retry_max ts o ≡ some u) ⊎ IsRefused u
unfolding perform_sync
perform_sync-or md5_of output output_len handle retry_max ts o u =
    let P : Option Updated → Type 0 =
      λ r. r ≡ some u → (sync_with md5_of output_len retry_max ts o ≡ some u) ⊎ IsRefused u in
    if_elim P (not output || output_len == 0)
      (λ _ e. inr (ended-IsRefused o invalid_input u (λ f. cc) e))
      (λ _.
        if_elim P (not handle) (λ _ e. inr (ended-IsRefused o no_handle u (λ f. cc) e))
          (λ _ e. inl e))

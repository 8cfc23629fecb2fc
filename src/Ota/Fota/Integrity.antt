-- ===== src/Ota/Fota/Integrity.antt =====
-- A firmware is accepted only with the digest that was announced.
use nu_maker_mbed_aliyun_io.Base.{
  same_bytes, eq_of_same_bytes, ℕ, zero, suc, ◌+◌, ◌≤◌, ◌<◌, ◌^◌, ◌≡◌, refl, sym, ap, subst, arith,
  Bool, true, false, not, leb, ◌==◌, if◌then◌else◌, Option, none, some, List, [], ◌∷◌, ◌++◌, length,
  ℤ, pos, negsuc, All, Bool-cases, inl, inr, if_elim,
}
use nu_maker_mbed_aliyun_io.Ota.{
  Ota, OtaState, fetch_yield, ioctl, command, check_md5, is_fetch_finish, is_before_pushed,
  is_uninited, invalid_state, Outcome, fault, done, check_firmware, type_number, is_fetched,
  report_err, hex_text, c_text, fota, pushed, fetching, fetched, uninited, inited,
}
use nu_maker_mbed_aliyun_io.Ota.Fota.{
  Turn, success, type_error, Updated, image_verdict, check_image, Next, over, again, turn_failed,
  turn_stored, turn_received, turn_on, fota_loop, sync_with, perform_sync, reset_size,
}
use nu_maker_mbed_aliyun_io.Ota.Fota.Start.{perform_sync-or}
use nu_maker_mbed_aliyun_io.Ota.Fota.Digest.{IsFed, Announced, After, Limits, fetch_yield-After}

-- A firmware that is accepted: what is stored is as long as the file at least, and its digest is the
-- one announced.
abbrev pub IsSound : (List ℕ → List ℕ) → List ℕ → ℕ → Updated → Type 0
IsSound md5_of sum size u =
    u.verdict ≡ success → (c_text sum ≡ hex_text (md5_of u.stored)) × (size ≤ length u.stored)

abbrev IsNext : (List ℕ → List ℕ) → List ℕ → ℕ → Next → Type 0
IsNext md5_of sum size (over u) = IsSound md5_of sum size u
IsNext md5_of sum size (again o stored retry) = Announced sum size o × IsFed o stored

-- A check that writes a number other than 0 found the digest that was announced.
abbrev pub IsChecked : (List ℕ → List ℕ) → List ℕ → List ℕ → Outcome → Type 0
IsChecked md5_of sum stored fault = Unit
IsChecked md5_of sum stored (done o status none) = Unit
IsChecked md5_of sum stored (done o status (some zero)) = Unit
IsChecked md5_of sum stored (done o status (some (suc n))) = c_text sum ≡ hex_text (md5_of stored)

ioctl-IsChecked :
    (md5_of : List ℕ → List ℕ) (report : Option ℤ) (o : Ota) (stored : List ℕ)
    → o.md5 ≡ some stored
    → IsChecked md5_of o.md5sum stored (ioctl md5_of report o check_firmware true 4 true)
unfolding ioctl command check_md5
ioctl-IsChecked md5_of report o stored e =
    let P : Outcome → Type 0 = IsChecked md5_of o.md5sum stored in
    if_elim P (is_before_pushed o.state) (λ _. tt)
      (λ _.
        if_elim P (not (is_fetched o.state)) (λ _. tt)
          (λ _.
            rw (e, check_md5)
              (if_elim P (same_bytes (c_text o.md5sum) (hex_text (md5_of stored)))
                (λ h. eq_of_same_bytes (c_text o.md5sum) (hex_text (md5_of stored)) h) (λ _. tt))))

image_verdict-IsSound :
    (md5_of : List ℕ → List ℕ) (t : Turn) (o : Ota) (sum stored : List ℕ) (size : ℕ) (r : Outcome)
    → size ≤ length stored
    → IsChecked md5_of sum stored r
    → IsSound md5_of sum size (image_verdict md5_of t o stored r)
unfolding image_verdict
image_verdict-IsSound md5_of t o sum stored size fault n c = λ e. absurd (ground (arith, e))
image_verdict-IsSound md5_of t o sum stored size (done o' status none) n c =
    λ e. absurd (ground (arith, e))
image_verdict-IsSound md5_of t o sum stored size (done o' status (some zero)) n c =
    λ e. absurd (ground (arith, e))
image_verdict-IsSound md5_of t o sum stored size (done o' status (some (suc k))) n c =
    let z : (suc k == 0) ≡ false = ground arith in rw z (λ e. (c, n))

is_fetched-is_uninited : (s : OtaState) → is_uninited s ≡ true → is_fetched s ≡ false
is_fetched-is_uninited uninited e = refl
is_fetched-is_uninited inited e = refl
is_fetched-is_uninited pushed e = refl
is_fetched-is_uninited fetching e = refl
is_fetched-is_uninited fetched e = cc

turn_stored-IsNext :
    (md5_of : List ℕ → List ℕ) (t : Turn) (o : Ota) (stored : List ℕ)
    → o.md5 ≡ some stored
    → o.size_fetched ≡ length stored
    → is_fetched o.state ≡ leb o.size_file (length stored)
    → IsNext md5_of o.md5sum o.size_file (turn_stored md5_of t o stored)
unfolding turn_stored is_fetch_finish check_image
turn_stored-IsNext md5_of t o stored e n f =
    let P : Next → Type 0 = IsNext md5_of o.md5sum o.size_file in
    let R : Ota × Bool → Type 0 =
      λ x. P (if x.1 then over (check_image md5_of t x.0 stored) else again x.0 stored 0) in
    let goes_on : (err : ℤ)
        → is_fetched o.state ≡ false
        → P (again (record o { err = err }) stored 0) =
      λ err partial. (
        record { md5sum = refl; size_file = refl },
        record { counted = n; fed = inr e; short = inr (ground (arith, f, partial)) },
      ) in
    let o' : Ota = record o { err = report_err t.report o.err } in
    if_elim P (o.size_file == 0) (λ _ v. absurd (ground (arith, v)))
      (λ _.
        if_elim R (is_uninited o.state)
          (λ u. goes_on invalid_state (is_fetched-is_uninited o.state u))
          (λ _. elim (Bool-cases (is_fetched o.state)) [
            | inr partial ↦ rw partial (goes_on (report_err t.report o.err) partial)
            | inl full ↦ rw full (
                image_verdict-IsSound md5_of t o' o.md5sum stored o.size_file
                  (ioctl md5_of t.check_report o' check_firmware true 4 true)
                  (ground (arith, f, full)) (ioctl-IsChecked md5_of t.check_report o' stored e))
          ]))

turn_on-IsNext :
    (md5_of : List ℕ → List ℕ) (retry_max : ℕ) (t : Turn) (sum : List ℕ) (size : ℕ)
    (stored : List ℕ) (retry : ℕ) (r : Ota × ℤ × List ℕ)
    → After sum size stored r
    → IsNext md5_of sum size (turn_on md5_of retry_max t stored retry r)
unfolding turn_on turn_received turn_failed
turn_on-IsNext md5_of retry_max t sum size stored retry (o, pos n, bytes) (a, m, c, f) =
    let P : Next → Type 0 = IsNext md5_of sum size in
    if_elim P (not t.writes) (λ _ v. absurd (ground (arith, v)))
      (λ _.
        subst (λ k. IsNext md5_of sum k (turn_stored md5_of t o (stored ++ bytes))) a.size_file
          (subst (λ k. IsNext md5_of k o.size_file (turn_stored md5_of t o (stored ++ bytes)))
            a.md5sum
            (turn_stored-IsNext md5_of t o (stored ++ bytes) m c (
              subst (λ k. is_fetched o.state ≡ leb k (length (stored ++ bytes))) (sym a.size_file)
                f))))
turn_on-IsNext md5_of retry_max t sum size stored retry (o, negsuc n, bytes) (a, v) =
    let P : Next → Type 0 = IsNext md5_of sum size in
    if_elim P (leb retry_max retry) (λ _ e. absurd (ground (arith, e))) (λ _. (a, v))

fota_loop-IsSound :
    (md5_of : List ℕ → List ℕ) (output_len retry_max : ℕ) (ts : List Turn) (o : Ota)
    (stored : List ℕ) (retry : ℕ) (sum : List ℕ) (size : ℕ) (u : Updated)
    → All (λ t. Limits output_len t.outside) ts
    → size + output_len < 2 ^ 32
    → Announced sum size o
    → IsFed o stored
    → fota_loop md5_of output_len retry_max ts o stored retry ≡ some u
    → IsSound md5_of sum size u
unfolding fota_loop
fota_loop-IsSound md5_of output_len retry_max [] o stored retry sum size u h b a v e = cc
fota_loop-IsSound md5_of output_len retry_max (t ∷ ts) o stored retry sum size u h b a v e =
    go
      (λ o' stored' retry'.
        fota_loop-IsSound md5_of output_len retry_max ts o' stored' retry' sum size u h.1 b)
      (turn_on md5_of retry_max t stored retry (fetch_yield t.outside o output_len)) refl
      (turn_on-IsNext md5_of retry_max t sum size stored retry (fetch_yield t.outside o output_len)
        (subst (λ k. After sum k stored (fetch_yield t.outside o output_len)) a.size_file
          (subst (λ k. After k o.size_file stored (fetch_yield t.outside o output_len)) a.md5sum
            (fetch_yield-After t.outside o stored output_len h.0 (omega (arith, a.size_file, b))
              v))))
  where
    go :
        ((o' : Ota) (stored' : List ℕ) (retry' : ℕ)
          → Announced sum size o'
          → IsFed o' stored'
          → fota_loop md5_of output_len retry_max ts o' stored' retry' ≡ some u
          → IsSound md5_of sum size u)
        → (n : Next)
        → turn_on md5_of retry_max t stored retry (fetch_yield t.outside o output_len) ≡ n
        → IsNext md5_of sum size n
        → IsSound md5_of sum size u
    go ih (over u') f s =
        let same : u' ≡ u = ground (arith, e, f) in subst (IsSound md5_of sum size) same s
    go ih (again o' stored' retry') f s = ih o' stored' retry' s.0 s.1 (ground (arith, e, f))

type_error-no_success :
    (o : Ota) (u : Updated) (md5_of : List ℕ → List ℕ) {o' : Ota}
    → some (record { ota = o'; stored = []; verdict = type_error }) ≡ some u
    → u.verdict ≡ success
    → (c_text o.md5sum ≡ hex_text (md5_of u.stored)) × (o.size_file ≤ length u.stored)
type_error-no_success o u md5_of {o'} e good =
    let same : record { ota = o'; stored = []; verdict = type_error } ≡ u = ground (arith, e) in
    absurd (ground (arith, ap (λ (x : Updated). x.verdict) same, good))

pub reset_size-late :
    (md5_of : List ℕ → List ℕ) (o : Ota)
    → is_before_pushed o.state ≡ false
    → reset_size md5_of o ≡ record o { size_fetched = 0 }
unfolding reset_size ioctl command
reset_size-late md5_of o e = rw e refl

sync_with-IsSound :
    (md5_of : List ℕ → List ℕ) (output_len retry_max : ℕ) (ts : List Turn) (o : Ota) (u : Updated)
    → All (λ t. Limits output_len t.outside) ts
    → o.size_file + output_len < 2 ^ 32
    → sync_with md5_of output_len retry_max ts o ≡ some u
    → u.verdict ≡ success
    → (c_text o.md5sum ≡ hex_text (md5_of u.stored)) × (o.size_file ≤ length u.stored)
unfolding sync_with ioctl command
sync_with-IsSound md5_of output_len retry_max ts o u h b =
    let P : Option Updated → Type 0 = λ r.
      r ≡ some u
      → u.verdict ≡ success
      → (c_text o.md5sum ≡ hex_text (md5_of u.stored)) × (o.size_file ≤ length u.stored) in
    elim (Bool-cases (is_before_pushed o.state)) [
      | inl early ↦ rw early (type_error-no_success o u md5_of)
      | inr late ↦
          rw (late, reset_size-late md5_of o late)
            (if_elim P (not (type_number o.type == type_number fota))
              (λ _. type_error-no_success o u md5_of)
              (λ _ e.
                fota_loop-IsSound md5_of output_len retry_max ts (record o { size_fetched = 0 }) []
                  0 o.md5sum o.size_file u h b (record { md5sum = refl; size_file = refl })
                  (record { counted = refl; fed = inl refl; short = inl refl }) e))
    ]

-- Whatever the network, the server, the storage and the memory do, as long as a fetch gives at most the
-- bytes that the buffer holds and the sizes stay below 2^32: if dm_fota_perform_sync succeeds, then what
-- it wrote to storage is at least as long as the size announced, and the MD5 digest of exactly that is
-- the one announced.
pub perform_sync-IsSound :
    (md5_of : List ℕ → List ℕ) (output : Bool) (output_len : ℕ) (handle : Bool) (retry_max : ℕ)
    (ts : List Turn) (o : Ota) (u : Updated)
    → All (λ t. Limits output_len t.outside) ts
    → o.size_file + output_len < 2 ^ 32
    → perform_sync md5_of output output_len handle retry_max ts o ≡ some u
    → u.verdict ≡ success
    → (c_text o.md5sum ≡ hex_text (md5_of u.stored)) × (o.size_file ≤ length u.stored)
perform_sync-IsSound md5_of output output_len handle retry_max ts o u h b e good =
    elim (perform_sync-or md5_of output output_len handle retry_max ts o u e) [
      | inl f ↦ sync_with-IsSound md5_of output_len retry_max ts o u h b f good
      | inr (z, n) ↦ absurd (n good)
    ]

-- ===== src/Ota/Fota/Resume.antt =====
-- A download that is broken off and opened again, from a server that holds one file.
use nu_maker_mbed_aliyun_io.Base.{
  ℕ, ◌+◌, ◌≤◌, ◌<◌, ◌^◌, ◌≡◌, refl, sym, ap, ◌∙◌, subst, arith, Bool, true, not, leb, ◌==◌,
  if◌then◌else◌, Option, some, List, [], ◌∷◌, ◌++◌, append_assoc, append-nil, length, length-append,
  ℤ, pos, negsuc, All, Bool-cases, inl, inr, if_elim,
}
use nu_maker_mbed_aliyun_io.Ota.{
  Ota, report_err, fetch_yield, fota, is_uninited, is_fetched, is_fetch_finish, is_before_pushed,
  invalid_state, Outcome, fault, done, ioctl, command, type_number, check_firmware,
}
use nu_maker_mbed_aliyun_io.Ota.Fota.{
  Turn, success, type_error, Updated, image_verdict, check_image, Next, over, again, turn_failed,
  turn_stored, turn_received, turn_on, fota_loop, sync_with, perform_sync, written_number,
}
use nu_maker_mbed_aliyun_io.Ota.Fota.Start.{perform_sync-or}
use nu_maker_mbed_aliyun_io.Ota.Fota.Digest.{Limits}
use nu_maker_mbed_aliyun_io.Ota.Fota.Integrity.{perform_sync-IsSound, reset_size-late}
use nu_maker_mbed_aliyun_io.Ota.Fota.Place.{
  IsPlaced, IsAt, Holds, Works, IsAt-fields, fetch_yield-Holds, IsPrefix, Continues,
}

image_verdict-IsPrefix :
    (file : List ℕ) (md5_of : List ℕ → List ℕ) (t : Turn) (o : Ota) (stored missing : List ℕ)
    (r : Outcome)
    → stored ++ missing ≡ file
    → IsPrefix file (image_verdict md5_of t o stored r)
unfolding image_verdict
image_verdict-IsPrefix file md5_of t o stored missing fault s = (missing, s)
image_verdict-IsPrefix file md5_of t o stored missing (done o' status written) s =
    if_elim (IsPrefix file) (written_number written == 0) (λ _. (missing, s)) (λ _. (missing, s))

turn_stored-Continues :
    (file : List ℕ) (md5_of : List ℕ → List ℕ) (t : Turn) (o : Ota) (stored : List ℕ)
    → IsAt file o stored
    → Continues file (turn_stored md5_of t o stored)
unfolding turn_stored is_fetch_finish check_image
turn_stored-Continues file md5_of t o stored v =
    let P : Next → Type 0 = Continues file in
    let R : Ota × Bool → Type 0 =
      λ x. P (if x.1 then over (check_image md5_of t x.0 stored) else again x.0 stored 0) in
    let o' : Ota = record o { err = report_err t.report o.err } in
    if_elim P (o.size_file == 0) (λ _. (v.missing, v.split))
      (λ _.
        if_elim R (is_uninited o.state)
          (λ _. IsAt-fields file o (record o { err = invalid_state }) stored refl refl v)
          (λ _. elim (Bool-cases (is_fetched o.state)) [
            | inr partial ↦ rw partial (IsAt-fields file o o' stored refl refl v)
            | inl full ↦ rw full (
                image_verdict-IsPrefix file md5_of t o' stored v.missing
                  (ioctl md5_of t.check_report o' check_firmware true 4 true) v.split)
          ]))

turn_on-Continues :
    (file : List ℕ) (md5_of : List ℕ → List ℕ) (retry_max : ℕ) (t : Turn) (stored : List ℕ)
    (retry : ℕ) (r : Ota × ℤ × List ℕ)
    → Holds file stored r
    → Continues file (turn_on md5_of retry_max t stored retry r)
unfolding turn_on turn_received turn_failed
turn_on-Continues file md5_of retry_max t stored retry (o, pos n, bytes) v =
    if_elim (Continues file) (not t.writes)
      (λ _. (bytes ++ v.missing, sym (append_assoc stored bytes v.missing) ∙ v.split))
      (λ _. turn_stored-Continues file md5_of t o (stored ++ bytes) v)
turn_on-Continues file md5_of retry_max t stored retry (o, negsuc n, bytes) v =
    if_elim (Continues file) (leb retry_max retry) (λ _. (v.missing, v.split)) (λ _. v)

fota_loop-IsPrefix :
    (file : List ℕ) (md5_of : List ℕ → List ℕ) (output_len retry_max : ℕ) (ts : List Turn) (o : Ota)
    (stored : List ℕ) (retry : ℕ) (u : Updated)
    → All (λ t. Works file t.outside) ts
    → length file < 2 ^ 32
    → IsAt file o stored
    → fota_loop md5_of output_len retry_max ts o stored retry ≡ some u
    → IsPrefix file u
unfolding fota_loop
fota_loop-IsPrefix file md5_of output_len retry_max [] o stored retry u h b v e = cc
fota_loop-IsPrefix file md5_of output_len retry_max (t ∷ ts) o stored retry u h b v e =
    go
      (λ o' stored' retry'.
        fota_loop-IsPrefix file md5_of output_len retry_max ts o' stored' retry' u h.1 b)
      (turn_on md5_of retry_max t stored retry (fetch_yield t.outside o output_len)) refl
      (turn_on-Continues file md5_of retry_max t stored retry (fetch_yield t.outside o output_len)
        (fetch_yield-Holds file t.outside o stored output_len h.0 b v))
  where
    go :
        ((o' : Ota) (stored' : List ℕ) (retry' : ℕ)
          → IsAt file o' stored'
          → fota_loop md5_of output_len retry_max ts o' stored' retry' ≡ some u
          → IsPrefix file u)
        → (n : Next)
        → turn_on md5_of retry_max t stored retry (fetch_yield t.outside o output_len) ≡ n
        → Continues file n
        → IsPrefix file u
    go ih (over u') f s = let same : u' ≡ u = ground (arith, e, f) in subst (IsPrefix file) same s
    go ih (again o' stored' retry') f s = ih o' stored' retry' s (ground (arith, e, f))

nil-IsPrefix :
    (file : List ℕ) (o : Ota) (u : Updated)
    → some (record { ota = o; stored = []; verdict = type_error }) ≡ some u
    → IsPrefix file u
nil-IsPrefix file o u e =
    let same : record { ota = o; stored = []; verdict = type_error } ≡ u = ground (arith, e) in
    subst (IsPrefix file) same (file, refl)

pub complete :
    (stored missing file : List ℕ)
    → stored ++ missing ≡ file
    → length file ≤ length stored
    → stored ≡ file
complete stored [] file e h = sym (append-nil stored) ∙ e
complete stored (x ∷ missing) file e h =
    absurd (omega (arith, ap length e, length-append stored (x ∷ missing)))

sync_with-IsPrefix :
    (file : List ℕ) (md5_of : List ℕ → List ℕ) (output_len retry_max : ℕ) (ts : List Turn) (o : Ota)
    (u : Updated)
    → All (λ t. Works file t.outside) ts
    → IsPlaced 0 o.ch_fetch
    → length file < 2 ^ 32
    → sync_with md5_of output_len retry_max ts o ≡ some u
    → IsPrefix file u
unfolding sync_with ioctl command
sync_with-IsPrefix file md5_of output_len retry_max ts o u h p b =
    let P : Option Updated → Type 0 = λ r. r ≡ some u → IsPrefix file u in
    elim (Bool-cases (is_before_pushed o.state)) [
      | inl early ↦ rw early (nil-IsPrefix file (record o { err = invalid_state }) u)
      | inr late ↦
          rw (late, reset_size-late md5_of o late)
            (if_elim P (not (type_number o.type == type_number fota)) (λ _. nil-IsPrefix file o u)
              (λ _.
                fota_loop-IsPrefix file md5_of output_len retry_max ts
                  (record o { size_fetched = 0 }) [] 0 u h b
                  (record { counted = refl; missing = file; split = refl; placed = p })))
    ]

-- If the server holds one file below 2^32 bytes and gives, in each fetch, bytes of it from where the
-- download stands, there is memory for the digests, and the download stands at its beginning or is not
-- open: what dm_fota_perform_sync wrote when it ends is the beginning of the file.
pub perform_sync-IsPrefix :
    (file : List ℕ) (md5_of : List ℕ → List ℕ) (output : Bool) (output_len : ℕ) (handle : Bool)
    (retry_max : ℕ) (ts : List Turn) (o : Ota) (u : Updated)
    → All (λ t. Works file t.outside) ts
    → IsPlaced 0 o.ch_fetch
    → length file < 2 ^ 32
    → perform_sync md5_of output output_len handle retry_max ts o ≡ some u
    → IsPrefix file u
perform_sync-IsPrefix file md5_of output output_len handle retry_max ts o u h p b e =
    elim (perform_sync-or md5_of output output_len handle retry_max ts o u e) [
      | inl f ↦ sync_with-IsPrefix file md5_of output_len retry_max ts o u h p b f
      | inr (z, n) ↦ (file, ap (λ l. l ++ file) z)
    ]

-- If the server holds one file and gives, in each fetch, at most as many bytes as the buffer holds, of
-- the file from where the download stands; the announced size is the file's and with the buffer below
-- 2^32; there is memory for the digests; and the download stands at its beginning or is not open: then
-- whenever dm_fota_perform_sync succeeds, however often the download was broken off and opened again,
-- what it wrote is exactly the file.
pub perform_sync-stores :
    (file : List ℕ) (md5_of : List ℕ → List ℕ) (output : Bool) (output_len : ℕ) (handle : Bool)
    (retry_max : ℕ) (ts : List Turn) (o : Ota) (u : Updated)
    → All (λ t. Works file t.outside) ts
    → All (λ t. Limits output_len t.outside) ts
    → IsPlaced 0 o.ch_fetch
    → o.size_file ≡ length file
    → o.size_file + output_len < 2 ^ 32
    → perform_sync md5_of output output_len handle retry_max ts o ≡ some u
    → u.verdict ≡ success
    → u.stored ≡ file
perform_sync-stores file md5_of output output_len handle retry_max ts o u h limits p size room e
      good =
    let (missing, s) =
      perform_sync-IsPrefix file md5_of output output_len handle retry_max ts o u h p
        (omega (arith, size, room)) e in
    let sound =
      perform_sync-IsSound md5_of output output_len handle retry_max ts o u limits room e good in
    complete u.stored missing file s (omega (arith, size, sound.1))

-- ===== src/Ota/Fota.antt =====
-- eng/dev_model/dm_fota.c: dm_fota_perform_sync fetches a firmware, hands it to the board's storage and
-- checks it.
-- Each turn of the loop has what surrounds its fetch, the outcome of the write, the outcomes of the
-- reports, and whether the progress is to be told; storage is the bytes written so far.
pub mod Start
pub mod Digest
pub mod Integrity
pub mod Stuck
pub mod Place
pub mod Resume
pub mod Complete
use nu_maker_mbed_aliyun_io.Base.{
  ℕ, zero, suc, ◌+◌, Bool, true, false, ◌&&◌, ◌||◌, not, leb, ◌==◌, if◌then◌else◌, Option, none,
  some, List, [], ◌∷◌, ◌++◌, length, ℤ, pos, negsuc, take,
}
use nu_maker_mbed_aliyun_io.Ota.{
  Ota, OtaType, Outside, fetch_yield, is_fetch_finish, ioctl, command, Outcome, fault, done, fota,
  none_type, cota, report_err, type_number, reset_state, reset_fetched_size, check_firmware,
  ota_type, Fetched, broken, received, fetched_size, file_size,
}

abbrev pub fota_retry_interval_ms : ℕ
fota_retry_interval_ms = 100

pub record Turn : Type 0 where
  pub outside : Outside
  pub writes : Bool
  pub report : Option ℤ
  pub check_report : Option ℤ

-- How dm_fota_perform_sync ends, a null pointer or a division by zero included.
pub data Verdict : Type 0 where
  success image_check_failed fetch_failed write_failed type_error invalid_input no_handle crashed :
      Verdict

-- The update, what is in storage, and the verdict.
pub record Updated : Type 0 where
  pub ota : Ota
  pub stored : List ℕ
  pub verdict : Verdict

-- `IOT_OTA_Ioctl(ota_handle, IOT_OTAG_RESET_STATE, NULL, 0)`
abbrev state_after : Outcome → Ota → Ota
state_after fault o = o
state_after (done o' status written) o = o'

unfoldable pub reset : (List ℕ → List ℕ) → Ota → Ota
reset md5_of o = state_after (ioctl md5_of none o reset_state false 0 false) o

abbrev pub written_number : Option ℕ → ℕ
written_number none = 0
written_number (some n) = n

-- The verdict on a firmware that is fetched, by the outcome of its check.
unfoldable pub image_verdict : (List ℕ → List ℕ) → Turn → Ota → List ℕ → Outcome → Updated
image_verdict md5_of t o stored fault = record { ota = o; stored = stored; verdict = crashed }
image_verdict md5_of t o stored (done o' status written) =
    if written_number written == 0
    then record {
      ota = reset md5_of (record o' { err = report_err t.report o'.err });
      stored = stored;
      verdict = image_check_failed;
    }
    else record { ota = o'; stored = stored; verdict = success }

unfoldable pub check_image : (List ℕ → List ℕ) → Turn → Ota → List ℕ → Updated
check_image md5_of t o stored =
    image_verdict md5_of t o stored (ioctl md5_of t.check_report o check_firmware true 4 true)

-- The bytes that a fetch puts into the buffer.
abbrev pub bytes_of : Fetched → List ℕ
bytes_of (broken n) = []
bytes_of (received bytes) = bytes

-- What a turn of the loop comes to: the end, or the next turn with the time spent on retries.
pub data Next : Type 0 where
  over : Updated → Next
  again : (o : Ota) (stored : List ℕ) (retry_timeout : ℕ) → Next

unfoldable pub turn_failed : (List ℕ → List ℕ) → ℕ → Turn → Ota → List ℕ → ℕ → Next
turn_failed md5_of retry_max t o stored retry =
    if leb retry_max retry
    then over (record {
      ota = reset md5_of (record o { err = report_err t.report o.err });
      stored = stored;
      verdict = fetch_failed;
    })
    else again o stored (retry + fota_retry_interval_ms)

-- The turn behind the write: the percentage divides by the size of the file.
unfoldable pub turn_stored : (List ℕ → List ℕ) → Turn → Ota → List ℕ → Next
turn_stored md5_of t o stored =
    if o.size_file == 0
    then over (record { ota = o; stored = stored; verdict = crashed })
    else let o' = record o { err = report_err t.report o.err } in
      let (o'', finished) = is_fetch_finish o' in
      if finished then over (check_image md5_of t o'' stored) else again o'' stored 0

unfoldable pub turn_received : (List ℕ → List ℕ) → Turn → Ota → List ℕ → List ℕ → Next
turn_received md5_of t o stored bytes =
    if not t.writes
    then over (record {
      ota = reset md5_of (record o { err = report_err t.report o.err });
      stored = stored;
      verdict = write_failed;
    })
    else turn_stored md5_of t o (stored ++ bytes)

-- One turn of the loop, on the result of the fetch.
unfoldable pub turn_on : (List ℕ → List ℕ) → ℕ → Turn → List ℕ → ℕ → Ota × ℤ × List ℕ → Next
turn_on md5_of retry_max t stored retry (o, pos n, bytes) = turn_received md5_of t o stored bytes
turn_on md5_of retry_max t stored retry (o, negsuc n, bytes) =
    turn_failed md5_of retry_max t o stored retry

-- The loop, while turns are given; `none` means that it goes on.
unfoldable pub fota_loop : (List ℕ → List ℕ) → ℕ → ℕ → List Turn → Ota → List ℕ → ℕ → Option Updated
fota_loop md5_of output_len retry_max [] o stored retry = none
fota_loop md5_of output_len retry_max (t ∷ ts) o stored retry =
    elim (turn_on md5_of retry_max t stored retry (fetch_yield t.outside o output_len)) [
      | over u ↦ some u
      | again o' stored' retry' ↦ fota_loop md5_of output_len retry_max ts o' stored' retry'
    ]

-- The type that IOT_OTA_Ioctl writes to a variable set to 0, and the update.
abbrev type_of : Outcome → ℕ
type_of fault = 0
type_of (done o status written) = written_number written

-- `IOT_OTA_Ioctl(ota_handle, IOT_OTAG_RESET_FETCHED_SIZE, ota_handle, 4)`
unfoldable pub reset_size : (List ℕ → List ℕ) → Ota → Ota
reset_size md5_of o = state_after (ioctl md5_of none o reset_fetched_size true 4 true) o

-- dm_fota_perform_sync from IOT_OTAG_OTA_TYPE on, on empty storage.
unfoldable pub sync_with : (List ℕ → List ℕ) → ℕ → ℕ → List Turn → Ota → Option Updated
sync_with md5_of output_len retry_max ts o =
    let asked = ioctl md5_of none o ota_type true 4 true in
    let o' = state_after asked o in
    if not (type_of asked == type_number fota)
    then some (record { ota = o'; stored = []; verdict = type_error })
    else fota_loop md5_of output_len retry_max ts (reset_size md5_of o') [] 0

-- dm_fota_perform_sync: `output` is whether the buffer is given, `handle` is what dm_ota_get_ota_handle
-- gives for the update `o`: whether there is one.
unfoldable pub perform_sync :
    (List ℕ → List ℕ) → Bool → ℕ → Bool → ℕ → List Turn → Ota → Option Updated
perform_sync md5_of output output_len handle retry_max ts o =
    if not output || output_len == 0
    then some (record { ota = o; stored = []; verdict = invalid_input })
    else if not handle
    then some (record { ota = o; stored = []; verdict = no_handle })
    else sync_with md5_of output_len retry_max ts o

-- ===== src/Ota.antt =====
-- eng/ota/iotx_ota.c: the firmware update of a device, from the message that announces a firmware or a
-- configuration to the check of what was fetched.
-- A digest that is being computed is the list of the bytes fed to it; the digest functions are
-- parameters. The HTTP client, the outcomes of allocations and of reports to the cloud are arguments.
-- The handle that the functions take is given.
pub mod Push
pub mod Fota
mod Runs
use nu_maker_mbed_aliyun_io.Base.{
  same_bytes, ℕ, zero, suc, ◌+◌, ◌/◌, ◌%◌, Bool, true, false, ◌&&◌, not, ltb, leb, ◌==◌,
  if◌then◌else◌, Option, none, some, List, [], ◌∷◌, ◌++◌, length, ℤ, pos, negsuc,
}
use nu_maker_mbed_aliyun_io.Base.Bits.{u32}
use nu_maker_mbed_aliyun_io.Infra.Hex.{hex2char}
use mathlib.Core.Option

-- IOT_OTA_State_t and IOT_OTA_Type_t
pub data OtaState : Type 0 where
  uninited inited pushed fetching fetched : OtaState

pub data OtaType : Type 0 where
  none_type cota fota : OtaType

-- The handle of a download: its address, the first byte that it asks for, and the bytes received.
pub record Channel : Type 0 where
  pub url : List ℕ
  pub offset : ℕ
  pub fetch_size : ℕ

pub record Ota : Type 0 where
  pub state : OtaState
  pub type : OtaType
  pub size_last_fetched : ℕ
  pub size_fetched : ℕ
  pub size_file : ℕ
  pub purl : Option (List ℕ)
  pub version : Option (List ℕ)
  pub md5sum : List ℕ
  pub md5 : Option (List ℕ)
  pub sha256 : Option (List ℕ)
  pub ch_fetch : Option Channel
  pub cota_url : Option (List ℕ)
  pub err : ℤ

-- IOT_OTAE_INVALID_PARAM, IOT_OTAE_INVALID_STATE, and -1
abbrev pub invalid_param : ℤ
invalid_param = negsuc 1

abbrev pub invalid_state : ℤ
invalid_state = negsuc 2

abbrev pub fail_return : ℤ
fail_return = negsuc 0

-- What one ofc_Fetch comes to: an error -(n + 1), or the bytes put into the buffer.
pub data Fetched : Type 0 where
  broken : (n : ℕ) → Fetched
  received : (bytes : List ℕ) → Fetched

-- What surrounds one IOT_OTA_FetchYield: whether each digest can be set up where it is missing and where
-- it starts again, whether a download can be opened, the HTTP client, and the error that the report of
-- the start leaves, if it fails.
pub record Outside : Type 0 where
  pub alloc_md5 : Bool
  pub alloc_sha256 : Bool
  pub renew_md5 : Bool
  pub renew_sha256 : Bool
  pub opens : List ℕ → ℕ → Bool
  pub fetch : Channel → Fetched
  pub report : Option ℤ

abbrev pub open_at : Outside → Option (List ℕ) → ℕ → Option Channel
open_at w none offset = none
open_at w (some url) offset =
    if w.opens url offset
    then some (record { url = url; offset = offset; fetch_size = 0 })
    else none

-- The state in which a fetch goes on, if the state allows one.
unfoldable pub enter_fetching : OtaState → Option OtaState
enter_fetching pushed = some fetching
enter_fetching fetching = some fetching
enter_fetching _ = none

abbrev pub feed : List ℕ → Option (List ℕ) → Option (List ℕ)
feed bytes = Option.map (λ fed. fed ++ bytes)

abbrev pub report_err : Option ℤ → ℤ → ℤ
report_err none err = err
report_err (some e) err = e

-- The end of a fetch that received bytes: the update, the result, and what the buffer holds then.
unfoldable pub fetch_count : Ota → List ℕ → Ota × ℤ × List ℕ
fetch_count o bytes =
    let size = u32 (o.size_fetched + length bytes) in
    let done = leb o.size_file size in
    (
      record o {
        md5 = feed bytes o.md5;
        sha256 = feed bytes o.sha256;
        size_last_fetched = length bytes;
        size_fetched = size;
        type = if done then none_type else o.type;
        state = if done then fetched else o.state;
      },
      pos (length bytes),
      bytes,
    )

-- The digests start again where nothing was fetched before, and the start is reported.
unfoldable pub fetch_renew : Outside → Ota → List ℕ → Ota × ℤ × List ℕ
fetch_renew w o bytes =
    if not (o.size_fetched == 0)
    then fetch_count o bytes
    else if not w.renew_md5
    then (record o { md5 = none }, fail_return, [])
    else if not w.renew_sha256
    then (record o { md5 = some []; sha256 = none }, fail_return, [])
    else fetch_count (record o { md5 = some []; sha256 = some []; err = report_err w.report o.err })
        bytes

unfoldable pub fetch_from : Outside → Ota → Channel → Ota × ℤ × List ℕ
fetch_from w o c = elim (w.fetch c) [
  | broken n ↦ (record o { ch_fetch = none }, negsuc n, [])
  | received bytes ↦
      fetch_renew w
        (record o { ch_fetch = some (record c { fetch_size = c.fetch_size + length bytes }) }) bytes
]

-- A download that is opened again asks for what is missing.
unfoldable pub reopen : Outside → Ota → Option Channel
reopen w o = elim o.type [
  | none_type ↦ none
  | cota ↦ open_at w o.cota_url o.size_fetched
  | fota ↦ open_at w o.purl o.size_fetched
]

unfoldable pub fetch_open : Outside → Ota → Ota × ℤ × List ℕ
fetch_open w o = elim o.ch_fetch [
  | some c ↦ fetch_from w o c
  | none ↦ elim (reopen w o) [
    | none ↦ (o, fail_return, [])
    | some c ↦ fetch_from w (record o { ch_fetch = some c }) c
  ]
]

unfoldable pub fetch_sha256 : Outside → Ota → Ota × ℤ × List ℕ
fetch_sha256 w o = elim o.sha256 [
  | some fed ↦ fetch_open w o
  | none ↦
      if w.alloc_sha256 then fetch_open w (record o { sha256 = some [] }) else (o, fail_return, [])
]

unfoldable pub fetch_md5 : Outside → Ota → Ota × ℤ × List ℕ
fetch_md5 w o = elim o.md5 [
  | some fed ↦ fetch_sha256 w o
  | none ↦ if w.alloc_md5 then fetch_sha256 w (record o { md5 = some [] }) else (o, fail_return, [])
]

-- IOT_OTA_FetchYield with a buffer of `buf_len` bytes.
unfoldable pub fetch_yield : Outside → Ota → ℕ → Ota × ℤ × List ℕ
fetch_yield w o buf_len =
    if buf_len == 0 then (o, invalid_param, []) else elim (enter_fetching o.state) [
      | none ↦ (record o { err = invalid_state }, invalid_state, [])
      | some s ↦ fetch_md5 w (record o { state = s })
    ]

abbrev pub is_uninited : OtaState → Bool
is_uninited uninited = true
is_uninited _ = false

abbrev pub is_fetching_state : OtaState → Bool
is_fetching_state pushed = true
is_fetching_state fetching = true
is_fetching_state _ = false

abbrev pub is_fetched : OtaState → Bool
is_fetched fetched = true
is_fetched _ = false

unfoldable pub is_fetching : Ota → Ota × Bool
is_fetching o =
    if is_uninited o.state
    then (record o { err = invalid_state }, false)
    else (o, is_fetching_state o.state)

unfoldable pub is_fetch_finish : Ota → Ota × Bool
is_fetch_finish o =
    if is_uninited o.state
    then (record o { err = invalid_state }, false)
    else (o, is_fetched o.state)

-- otalib_MD5Finalize: two characters for each byte of the digest.
unfoldable pub hex_text : List ℕ → List ℕ
unfolding hex2char
hex_text [] = []
hex_text (b ∷ bs) = hex2char (b / 16) ∷ hex2char b ∷ hex_text bs

-- The text in an array of characters.
unfoldable pub c_text : List ℕ → List ℕ
c_text [] = []
c_text (zero ∷ cs) = []
c_text (suc c ∷ cs) = suc c ∷ c_text cs

-- The commands of IOT_OTA_Ioctl on numbers, on the check of a firmware and on resets.
pub data Command : Type 0 where
  ota_type fetched_size file_size check_firmware reset_fetched_size reset_state : Command

-- A use of a digest that is not there, or the state, the status and the number that is written.
pub data Outcome : Type 0 where
  fault : Outcome
  done : (o : Ota) (status : ℤ) (written : Option ℕ) → Outcome

abbrev pub type_number : OtaType → ℕ
type_number none_type = 0
type_number cota = 1
type_number fota = 2

-- The report of a checksum that differs leaves the error `report`.
unfoldable pub check_md5 : (List ℕ → List ℕ) → Option ℤ → Ota → Outcome
check_md5 md5_of report o = elim o.md5 [
  | none ↦ fault
  | some fed ↦
      if same_bytes (c_text o.md5sum) (hex_text (md5_of fed))
      then done (record o { md5 = none }) (pos 0) (some 1)
      else done (record o { md5 = none; err = report_err report o.err }) (pos 0) (some 0)
]

-- `fits` says that the buffer is one of four aligned bytes.
unfoldable pub command : (List ℕ → List ℕ) → Option ℤ → Ota → Command → Bool → Outcome
command md5_of report o reset_fetched_size fits = done (record o { size_fetched = 0 }) (pos 0) none
command md5_of report o reset_state fits =
    done (record o { type = none_type; state = inited; size_fetched = 0 }) (pos 0) none
command md5_of report o ota_type fits =
    if fits
    then done o (pos 0) (some (type_number o.type))
    else done (record o { err = invalid_param }) fail_return none
command md5_of report o fetched_size fits =
    if fits
    then done o (pos 0) (some o.size_fetched)
    else done (record o { err = invalid_param }) fail_return none
command md5_of report o file_size fits =
    if fits
    then done o (pos 0) (some o.size_file)
    else done (record o { err = invalid_param }) fail_return none
command md5_of report o check_firmware fits =
    if not fits
    then done (record o { err = invalid_param }) fail_return none
    else if not (is_fetched o.state)
    then done (record o { err = invalid_state }) fail_return none
    else check_md5 md5_of report o

abbrev pub is_before_pushed : OtaState → Bool
is_before_pushed uninited = true
is_before_pushed inited = true
is_before_pushed _ = false

-- IOT_OTA_Ioctl; `given` says that the buffer is not NULL.
unfoldable pub ioctl : (List ℕ → List ℕ) → Option ℤ → Ota → Command → Bool → ℕ → Bool → Outcome
ioctl md5_of report o cmd given buf_len aligned =
    if not given
    then done o invalid_param none
    else if buf_len == 0
    then done o invalid_param none
    else if is_before_pushed o.state
    then done (record o { err = invalid_state }) invalid_state none
    else command md5_of report o cmd (buf_len == 4 && aligned)

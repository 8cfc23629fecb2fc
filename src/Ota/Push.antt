-- ===== src/Ota/Push.antt =====
-- eng/ota/iotx_ota.c and eng/ota/ota_lib.c: what ota_callback does with the message that announces a
-- firmware.
-- The look-up of a key in a JSON text, the C library's atoi, the outcomes of allocations and of opening
-- the download are arguments.
use nu_maker_mbed_aliyun_io.Base.{
  same_bytes, ℕ, Bool, true, false, ltb, if◌then◌else◌, Option, none, some, List, [], ◌∷◌, ◌++◌,
  length, drop, ℤ, pos,
}
use nu_maker_mbed_aliyun_io.Base.Bits.{u32}
use nu_maker_mbed_aliyun_io.Ota.{
  OtaState, pushed, fetching, fota, Ota, Outside, open_at, fail_return,
}

abbrev pub key_message : List ℕ
key_message = b'm' ∷ b'e' ∷ b's' ∷ b's' ∷ b'a' ∷ b'g' ∷ b'e' ∷ []

abbrev pub key_data : List ℕ
key_data = b'd' ∷ b'a' ∷ b't' ∷ b'a' ∷ []

abbrev pub key_version : List ℕ
key_version = b'v' ∷ b'e' ∷ b'r' ∷ b's' ∷ b'i' ∷ b'o' ∷ b'n' ∷ []

abbrev pub key_url : List ℕ
key_url = b'u' ∷ b'r' ∷ b'l' ∷ []

abbrev pub key_md5 : List ℕ
key_md5 = b'm' ∷ b'd' ∷ b'5' ∷ []

abbrev pub key_size : List ℕ
key_size = b's' ∷ b'i' ∷ b'z' ∷ b'e' ∷ []

abbrev pub text_success : List ℕ
text_success = b's' ∷ b'u' ∷ b'c' ∷ b'c' ∷ b'e' ∷ b's' ∷ b's' ∷ []

-- The value of a key in a text, atoi, and the allocations of the version and of the address.
pub record Parser : Type 0 where
  pub value_of : List ℕ → List ℕ → Option (List ℕ)
  pub atoi : List ℕ → ℕ
  pub alloc_version : Bool
  pub alloc_url : Bool

-- What otalib_GetFirmwareVarlenPara does to its destination: it is left as it is without a value, set to
-- NULL where the allocation fails, and else set to the value.
pub data Varlen : Type 0 where
  absent failed : Varlen
  copied : List ℕ → Varlen

abbrev pub varlen_para : Bool → Option (List ℕ) → Varlen
varlen_para alloc none = absent
varlen_para alloc (some v) = if alloc then copied v else failed

-- otalib_GetFirmwareFixlenPara into a destination of `dest_len` bytes
abbrev pub fixlen_para : ℕ → Option (List ℕ) → Option (List ℕ)
fixlen_para dest_len none = none
fixlen_para dest_len (some v) = if ltb dest_len (length v) then none else some v

unfoldable pub get_size : Parser → List ℕ → Ota → Ota × Bool
get_size p text o = elim (fixlen_para 16 (p.value_of text key_size)) [
  | none ↦ (o, false)
  | some v ↦ (record o { size_file = u32 (p.atoi v) }, true)
]

unfoldable pub get_md5 : Parser → List ℕ → Ota → Ota × Bool
get_md5 p text o = elim (fixlen_para 32 (p.value_of text key_md5)) [
  | none ↦ (o, false)
  | some v ↦ get_size p text (record o { md5sum = v ++ drop (length v) o.md5sum })
]

unfoldable pub get_url : Parser → List ℕ → Ota → Ota × Bool
get_url p text o = elim (varlen_para p.alloc_url (p.value_of text key_url)) [
  | absent ↦ (o, false)
  | failed ↦ (record o { purl = none }, false)
  | copied v ↦ get_md5 p text (record o { purl = some v })
]

-- otalib_GetParams: the fields read so far, and whether all are there.
unfoldable pub get_params : Parser → List ℕ → Ota → Ota × Bool
get_params p text o = elim (varlen_para p.alloc_version (p.value_of text key_version)) [
  | absent ↦ (o, false)
  | failed ↦ (record o { version = none }, false)
  | copied v ↦ get_url p text (record o { version = some v })
]

-- The download is opened at the number of bytes that were fetched before.
unfoldable pub start_fota : Outside → Ota → Ota × ℤ
start_fota w o = elim (open_at w o.purl o.size_fetched) [
  | none ↦ (record o { ch_fetch = none }, fail_return)
  | some c ↦ (record o { ch_fetch = some c; type = fota; state = pushed }, pos 0)
]

abbrev pub is_busy : OtaState → Bool
is_busy fetching = true
is_busy _ = false

unfoldable pub push_data : Outside → Parser → List ℕ → Ota → Ota × ℤ
push_data w p msg o = elim (p.value_of msg key_data) [
  | none ↦ (o, fail_return)
  | some text ↦
      let (o', good) = get_params p text o in if good then start_fota w o' else (o', fail_return)
]

-- ota_callback for a message on a firmware.
unfoldable pub push_fota : Outside → Parser → List ℕ → Ota → Ota × ℤ
push_fota w p msg o =
    if is_busy o.state then (o, fail_return) else elim (p.value_of msg key_message) [
      | none ↦ (o, fail_return)
      | some v ↦ if same_bytes v text_success then push_data w p msg o else (o, fail_return)
    ]

-- ===== src/Coap/Resource/Runs.antt =====
-- The theorems on resources at concrete inputs, with the first bytes of a text as its digest.
use nu_maker_mbed_aliyun_io.Base.{
  ℕ, zero, suc, ◌≡◌, ◌≢◌, refl, arith, true, false, none, some, List, [], ◌∷◌, ◌++◌, pos, replicate,
  All,
}
use nu_maker_mbed_aliyun_io.Coap.Message.{MsgOption, Message}
use nu_maker_mbed_aliyun_io.Coap.Resource.{
  Resource, ResourceList, Settings, by_path_get, answers_path, path_md5_sum, occurs, starts,
  rewrite_first, path_type_of, path_normal,
}
use nu_maker_mbed_aliyun_io.Coap.Resource.Counts.{Entry}
use nu_maker_mbed_aliyun_io.Coap.Resource.Lookup.{IsExact}
use nu_maker_mbed_aliyun_io.Coap.Resource.Request.Paths.{IsText}

abbrev digest : List ℕ → List ℕ
digest text = text ++ replicate 16 1

-- "/sys" and "/a/#"
abbrev sys : List ℕ
sys = b'/' ∷ b's' ∷ b'y' ∷ b's' ∷ []

abbrev wild : List ℕ
wild = b'/' ∷ b'a' ∷ b'/' ∷ b'#' ∷ []

abbrev settings : Settings
settings = record { permission = 2; ctype = 0; maxage = 60; callback = some 7 }

abbrev entries : List Entry
entries =
    record { alloc = true; alloc_path = true; path = sys; settings = settings }
    ∷ record { alloc = true; alloc_path = true; path = wild; settings = settings }
    ∷ record { alloc = false; alloc_path = true; path = b'/' ∷ []; settings = settings }
    ∷ []

sys-normal : path_type_of sys ≡ path_normal
unfolding occurs starts
sys-normal = refl

abbrev sys_resource : Resource
sys_resource = record {
  permission = 2;
  callback = some 7;
  ctype = 0;
  maxage = 60;
  path = sys ++ 1 ∷ [];
  filter_path = [];
  path_type = path_normal;
}

-- A table that offers "/sys" with other values already.
abbrev table : ResourceList
table = record {
  resources = record sys_resource { permission = 1; callback = none } ∷ [];
  count = 1;
  maxcount = 2;
}

table-IsExact : IsExact digest table.resources sys
unfolding by_path_get answers_path path_md5_sum
table-IsExact r e = ground (arith, e)

abbrev long_path : List ℕ
long_path = replicate 130 b'x'

long_path-normal : path_type_of long_path ≡ path_normal
unfolding occurs starts
long_path-normal = refl

long_path-new : rewrite_first digest long_path settings [] ≡ none
unfolding rewrite_first
long_path-new = refl

abbrev sys_option : MsgOption
sys_option = record { num = 11; len = 3; val = b's' ∷ b'y' ∷ b's' ∷ [] }

sys_option-IsText : IsText sys_option
sys_option-IsText =
    (refl, ((λ e. omega (arith, e)), ((λ e. omega (arith, e)), ((λ e. omega (arith, e)), _))))

All-replicate_x : (n : ℕ) → All {A = ℕ} (λ c. c ≢ 0) (replicate n b'x')
All-replicate_x zero = _
All-replicate_x (suc n) = ((λ e. omega (arith, e)), All-replicate_x n)

abbrev long_option : MsgOption
long_option = record { num = 11; len = 127; val = replicate 127 b'x' }

-- A confirmable POST.
abbrev post : Message
post = record {
  header = record { version = 1; type = 0; tokenlen = 0; code = 2; msgid = 9 };
  token = [];
  options = sys_option ∷ [];
  optdelta = 11;
  payloadlen = 0;
  payload = none;
  handler = none;
  resp = none;
  user = none;
  keep = pos 0;
}

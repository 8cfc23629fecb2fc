-- ===== src/Coap/Resource.antt =====
-- eng/coap/server/CoAPResource.c: the paths that the local server offers, found by digest or by filter.
-- Text is the list of the characters before the terminator. The digest is an argument; the outcomes of
-- the allocations are too.
pub mod Matching
pub mod Counts
pub mod Lookup
pub mod Request
mod Runs
use nu_maker_mbed_aliyun_io.Base.{
  same_bytes, ℕ, ◌+◌, ◌-◌, Bool, true, false, ◌&&◌, ◌||◌, not, ltb, leb, ◌==◌, if◌then◌else◌,
  Option, none, some, List, [], ◌∷◌, ◌++◌, length, take, drop, replicate,
}
use nu_maker_mbed_aliyun_io.Base.Bits.{u8}
use nu_maker_mbed_aliyun_io.Coap.Message.{success}
use mathlib.Core.Option

abbrev pub max_path_len : ℕ
max_path_len = 128

abbrev pub path_checksum_len : ℕ
path_checksum_len = 5

pub data PathType : Type 0 where
  path_normal path_filter : PathType

-- FAIL_RETURN, COAP_SUCCESS and COAP_ERROR_DATA_SIZE of a registration.
pub data Registration : Type 0 where
  fail_return registered size_exceeded : Registration

pub record Resource : Type 0 where
  pub permission : ℕ
  pub callback : Option ℕ
  pub ctype : ℕ
  pub maxage : ℕ
  pub path : List ℕ
  pub filter_path : List ℕ
  pub path_type : PathType

pub record ResourceList : Type 0 where
  pub resources : List Resource
  pub count : ℕ
  pub maxcount : ℕ

-- The values of a registration beside its path.
pub record Settings : Type 0 where
  pub permission : ℕ
  pub ctype : ℕ
  pub maxage : ℕ
  pub callback : Option ℕ

abbrev pub resource_init : ℕ → ResourceList
resource_init res_maxcount = record { resources = []; count = 0; maxcount = u8 res_maxcount }

abbrev pub resource_deinit : ResourceList → ResourceList
resource_deinit l = record { resources = []; count = 0; maxcount = 0 }

abbrev pub is_filter : PathType → Bool
is_filter path_normal = false
is_filter path_filter = true

-- Whether the first text starts the second, as `strncmp(a, b, strlen(a))` finds.
unfoldable pub starts : List ℕ → List ℕ → Bool
starts [] bs = true
starts (a ∷ as') [] = false
starts (a ∷ as') (b ∷ bs) = a == b && starts as' bs

-- `strstr(text, part) != NULL`
unfoldable pub occurs : List ℕ → List ℕ → Bool
occurs part [] = starts part []
occurs part (c ∷ cs) = starts part (c ∷ cs) || occurs part cs

-- Whether the text contains "/#".
abbrev pub path_type_of : List ℕ → PathType
path_type_of path = if occurs (b'/' ∷ b'#' ∷ []) path then path_filter else path_normal

-- CoAPPathMD5_sum on a zeroed buffer of COAP_PATH_DEFAULT_SUM_LEN bytes; an empty path leaves it zeroed.
unfoldable pub path_md5_sum : (List ℕ → List ℕ) → List ℕ → List ℕ
path_md5_sum md5 [] = replicate path_checksum_len 0
path_md5_sum md5 (c ∷ cs) = take path_checksum_len (md5 (c ∷ cs))

unfoldable pub topic_filter_match : List ℕ → List ℕ → Bool
topic_filter_match [] topic = false
topic_filter_match (c ∷ cs) topic =
    starts (take (length cs) (c ∷ cs)) topic
    && (ltb (length cs) (length topic) && not (occurs (b'/' ∷ []) (drop (length cs) topic)))

abbrev pub create_normal : List ℕ → Settings → Resource
create_normal sum s = record {
  permission = s.permission;
  callback = s.callback;
  ctype = s.ctype;
  maxage = s.maxage;
  path = sum;
  filter_path = [];
  path_type = path_normal;
}

abbrev pub create_filter : List ℕ → Settings → Resource
create_filter filter s = record {
  permission = s.permission;
  callback = s.callback;
  ctype = s.ctype;
  maxage = s.maxage;
  path = replicate path_checksum_len 0;
  filter_path = filter;
  path_type = path_filter;
}

-- The two flags say whether the node and the copy of a filter are allocated.
unfoldable pub resource_create :
    (List ℕ → List ℕ) → Bool → Bool → List ℕ → PathType → Settings → Option Resource
resource_create md5 alloc alloc_path path path_normal s =
    if leb max_path_len (length path) || not alloc
    then none
    else some (create_normal (path_md5_sum md5 path) s)
resource_create md5 alloc alloc_path path path_filter s =
    if leb max_path_len (length path) || (not alloc || not alloc_path)
    then none
    else some (create_filter path s)

-- Whether a registration of the path rewrites the node.
unfoldable pub is_same : (List ℕ → List ℕ) → List ℕ → Resource → Bool
is_same md5 path r =
    if is_filter (path_type_of path)
    then is_filter r.path_type && starts path r.filter_path
    else not (is_filter r.path_type) && same_bytes (path_md5_sum md5 path) r.path

abbrev pub rewrite : Settings → Resource → Resource
rewrite s r = record r {
  permission = s.permission;
  callback = s.callback;
  ctype = s.ctype;
  maxage = s.maxage;
}

-- The loop of CoAPResource_register: the list with its first such node rewritten.
unfoldable pub rewrite_first :
    (List ℕ → List ℕ) → List ℕ → Settings → List Resource → Option (List Resource)
rewrite_first md5 path s [] = none
rewrite_first md5 path s (r ∷ rs) =
    let rest = Option.map (λ l. r ∷ l) (rewrite_first md5 path s rs) in
    if is_same md5 path r then some (rewrite s r ∷ rs) else rest

unfoldable pub resource_register :
    (List ℕ → List ℕ)
    → Bool
    → Bool
    → Option ResourceList
    → List ℕ
    → Settings
    → Option ResourceList × Registration
resource_register md5 alloc alloc_path none path s = (none, fail_return)
resource_register md5 alloc alloc_path (some l) path s =
    if leb l.maxcount l.count
    then (some l, size_exceeded)
    else elim (rewrite_first md5 path s l.resources) [
      | some rs ↦ (some (record l { resources = rs }), registered)
      | none ↦ elim (resource_create md5 alloc alloc_path path (path_type_of path) s) [
        | none ↦ (some l, registered)
        | some r ↦ (
          some (record l { resources = l.resources ++ r ∷ []; count = u8 (l.count + 1) }),
          registered,
        )
      ]
    ]

-- Whether CoAPResourceByPath_get stops at the node.
unfoldable pub answers_path : (List ℕ → List ℕ) → List ℕ → Resource → Bool
answers_path md5 path r =
    same_bytes (path_md5_sum md5 path) r.path
    || (is_filter r.path_type
        && (ltb 0 (length r.filter_path) && topic_filter_match r.filter_path path))

unfoldable pub by_path_get : (List ℕ → List ℕ) → List Resource → List ℕ → Option Resource
by_path_get md5 [] path = none
by_path_get md5 (r ∷ rs) path = if answers_path md5 path r then some r else by_path_get md5 rs path

-- ===== src/Coap/Resource/Lookup.antt =====
-- What a registered path answers, and how the table of resources grows.
use nu_maker_mbed_aliyun_io.Base.{
  same_bytes, same_bytes_refl, ℕ, ◌+◌, ◌≤◌, ◌<◌, ◌≡◌, refl, ◌∙◌, arith, Bool, true, false, ◌&&◌,
  not, none, some, List, [], ◌∷◌, ◌++◌, length, Bool-cases, Option-cases, inl, inr, gt→leb,
}
use nu_maker_mbed_aliyun_io.Base.Bits.{u8}
use nu_maker_mbed_aliyun_io.Coap.Resource.{
  max_path_len, path_normal, registered, Resource, ResourceList, Settings, is_filter, path_type_of,
  path_md5_sum, create_normal, resource_create, is_same, rewrite, rewrite_first, resource_register,
  answers_path, by_path_get,
}

-- The node holds the values of the registration.
pub record HasSettings (s : Settings) (r : Resource) : Type 0 where
  pub permission_eq : r.permission ≡ s.permission
  pub ctype_eq : r.ctype ≡ s.ctype
  pub maxage_eq : r.maxage ≡ s.maxage
  pub callback_eq : r.callback ≡ s.callback

-- No filter answers the path before a digest does.
abbrev pub IsExact : (List ℕ → List ℕ) → List Resource → List ℕ → Type 0
IsExact md5 rs path =
    (r : Resource) → by_path_get md5 rs path ≡ some r → is_filter r.path_type ≡ false

module _ (md5 : List ℕ → List ℕ) (path : List ℕ) (normal : path_type_of path ≡ path_normal) where
  answers-is_same :
      (r : Resource) → is_filter r.path_type ≡ false → answers_path md5 path r ≡ is_same md5 path r
  unfolding answers_path is_same
  answers-is_same r f = rw normal (ground (arith, f))

  answers-same :
      (s : Settings) (r : Resource)
      → is_same md5 path r ≡ true
      → answers_path md5 path (rewrite s r) ≡ true
  unfolding answers_path is_same
  answers-same s r e =
      let e' : (not (is_filter r.path_type) && same_bytes (path_md5_sum md5 path) r.path) ≡ true =
        rw normal at e in
      ground (arith, e')

  misses-is_same :
      (r : Resource)
      → is_same md5 path r ≡ false
      → is_filter r.path_type ≡ false
      → answers_path md5 path r ≡ false
  misses-is_same r e f = answers-is_same r f ∙ e

  IsExact-tail :
      (r : Resource) (rs : List Resource)
      → IsExact md5 (r ∷ rs) path
      → is_same md5 path r ≡ false
      → (answers_path md5 path r ≡ false) × IsExact md5 rs path
  unfolding by_path_get
  IsExact-tail r rs ok other = elim (Bool-cases (answers_path md5 path r)) [
    | inl hit ↦ absurd (ground (arith, hit, misses-is_same r other (ok r (rw (hit, by_path_get)))))
    | inr miss ↦ (miss, λ x e. ok x (rw (miss, by_path_get) e))
  ]

  rewrite_first-gets :
      (s : Settings) (rs rs' : List Resource)
      → IsExact md5 rs path
      → rewrite_first md5 path s rs ≡ some rs'
      → (r : Resource) × (by_path_get md5 rs' path ≡ some r) × HasSettings s r
  unfolding rewrite_first by_path_get
  rewrite_first-gets s [] rs' ok e = absurd (ground (arith, e))
  rewrite_first-gets s (x ∷ rs) rs' ok e = elim (Bool-cases (is_same md5 path x)) [
    | inl same ↦
        let shape : rs' ≡ rewrite s x ∷ rs = ground (arith, same, e) in
        (
          rewrite s x,
          rw shape (rw (answers-same s x same, by_path_get) refl),
          record { permission_eq = refl; ctype_eq = refl; maxage_eq = refl; callback_eq = refl },
        )
    | inr other ↦ elim (Option-cases (rewrite_first md5 path s rs)) [
      | inl e' ↦ absurd (ground (arith, other, e, e'))
      | inr (rs1, e') ↦
          let shape : rs' ≡ x ∷ rs1 = ground (arith, other, e, e') in
          let (miss, ok') = IsExact-tail x rs ok other in
          let (r, found, set) = rewrite_first-gets s rs rs1 ok' e' in
          (r, rw shape (rw (miss, by_path_get) found), set)
    ]
  ]

  rewrite_first-none :
      (s : Settings) (rs : List Resource)
      → IsExact md5 rs path
      → rewrite_first md5 path s rs ≡ none
      → by_path_get md5 rs path ≡ none
  unfolding rewrite_first by_path_get
  rewrite_first-none s [] ok e = refl
  rewrite_first-none s (x ∷ rs) ok e = elim (Bool-cases (is_same md5 path x)) [
    | inl same ↦ absurd (ground (arith, same, e))
    | inr other ↦ elim (Option-cases (rewrite_first md5 path s rs)) [
      | inl e' ↦
          let (miss, ok') = IsExact-tail x rs ok other in
          rw (miss, by_path_get) (rewrite_first-none s rs ok' e')
      | inr (rs1, e') ↦ absurd (ground (arith, other, e, e'))
    ]
  ]

  by_path_get-append :
      (r : Resource) (rs : List Resource)
      → by_path_get md5 rs path ≡ none
      → answers_path md5 path r ≡ true
      → by_path_get md5 (rs ++ r ∷ []) path ≡ some r
  unfolding by_path_get
  by_path_get-append r [] e a = rw (a, by_path_get)
  by_path_get-append r (x ∷ rs) e a = elim (Bool-cases (answers_path md5 path x)) [
    | inl hit ↦ absurd (ground (arith, hit, e))
    | inr miss ↦ rw (miss, by_path_get) (by_path_get-append r rs (rw (miss, by_path_get) at e) a)
  ]

  answers-create_normal :
      (s : Settings) → answers_path md5 path (create_normal (path_md5_sum md5 path) s) ≡ true
  unfolding answers_path
  answers-create_normal s = rw (same_bytes_refl (path_md5_sum md5 path)) refl

  -- Registering a path of less than 128 characters and without "/#", while the table has room and the
  -- memory lasts, succeeds, and looking the path up then finds a node with the values of the
  -- registration, whether the path was there before or not, unless a filter answered it already.
  pub by_path_get-register :
      (s : Settings) (l : ResourceList)
      → length path < max_path_len
      → l.count < l.maxcount
      → IsExact md5 l.resources path
      → (l' : ResourceList) × (resource_register md5 true true (some l) path s
          ≡ (some l', registered))
        × (r : Resource) × (by_path_get md5 l'.resources path ≡ some r)
        × HasSettings s r
  unfolding resource_register resource_create
  by_path_get-register s l short room ok =
      elim (Option-cases (rewrite_first md5 path s l.resources)) [
        | inl e ↦ (
          record l {
            resources = l.resources ++ create_normal (path_md5_sum md5 path) s ∷ [];
            count = u8 (l.count + 1);
          },
          rw
              (
                gt→leb l.maxcount l.count room,
                e,
                normal,
                gt→leb max_path_len (length path) short,
                resource_register,
              )
              refl,
          create_normal (path_md5_sum md5 path) s,
          by_path_get-append (create_normal (path_md5_sum md5 path) s) l.resources
              (rewrite_first-none s l.resources ok e) (answers-create_normal s),
          record { permission_eq = refl; ctype_eq = refl; maxage_eq = refl; callback_eq = refl },
        )
        | inr (rs', e) ↦
            let (r, found, set) = rewrite_first-gets s l.resources rs' ok e in
            (
              record l { resources = rs' },
              rw (gt→leb l.maxcount l.count room, e, resource_register) refl,
              r,
              found,
              set,
            )
      ]

  -- A path of 128 characters or more without "/#" that no node has yet is not stored while the table has
  -- room, and the registration reports success all the same.
  pub register-too_long :
      (s : Settings) (l : ResourceList) (alloc alloc_path : Bool)
      → max_path_len ≤ length path
      → l.count < l.maxcount
      → rewrite_first md5 path s l.resources ≡ none
      → resource_register md5 alloc alloc_path (some l) path s ≡ (some l, registered)
  unfolding resource_register resource_create
  register-too_long s l alloc alloc_path long room e =
      rw (gt→leb l.maxcount l.count room, e, normal, resource_register) (ground (arith, long))

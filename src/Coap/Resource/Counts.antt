-- ===== src/Coap/Resource/Counts.antt =====
-- The number of resources over a sequence of registrations.
use nu_maker_mbed_aliyun_io.Base.{
  ℕ, ◌+◌, ◌≤◌, ◌<◌, ◌≡◌, refl, ◌∙◌, arith, Bool, Option, some, List, [], ◌∷◌, ◌++◌, length, leb,
  Bool-cases, Option-cases, inl, inr, length-append,
}
use nu_maker_mbed_aliyun_io.Base.Bits.{u8}
use nu_maker_mbed_aliyun_io.Coap.Resource.{
  Resource, ResourceList, Settings, resource_init, is_same, rewrite_first, resource_create,
  resource_register, path_type_of,
}

-- A registration: which allocations succeed, the path and its values.
pub record Entry : Type 0 where
  pub alloc : Bool
  pub alloc_path : Bool
  pub path : List ℕ
  pub settings : Settings

unfoldable pub register_all :
    (List ℕ → List ℕ) → List Entry → Option ResourceList → Option ResourceList
register_all md5 [] l = l
register_all md5 (e ∷ es) l =
    register_all md5 es (resource_register md5 e.alloc e.alloc_path l e.path e.settings).0

pub record IsCounted (l : ResourceList) : Type 0 where
  pub exact : l.count ≡ length l.resources
  pub bounded : l.count ≤ l.maxcount
  pub byte : l.maxcount < 0x100

module _ (md5 : List ℕ → List ℕ) where
  length-rewrite_first :
      (path : List ℕ) (s : Settings) (rs rs' : List Resource)
      → rewrite_first md5 path s rs ≡ some rs'
      → length rs ≡ length rs'
  unfolding rewrite_first
  length-rewrite_first path s [] rs' e = absurd (ground (arith, e))
  length-rewrite_first path s (r ∷ rs) rs' e = elim (Bool-cases (is_same md5 path r)) [
    | inl same ↦ ground (arith, same, e)
    | inr other ↦ elim (Option-cases (rewrite_first md5 path s rs)) [
      | inl e' ↦ absurd (ground (arith, other, e, e'))
      | inr (rs1, e') ↦ ground (arith, other, e, e', length-rewrite_first path s rs rs1 e')
    ]
  ]

  resource_register-IsCounted :
      (alloc alloc_path : Bool) (l : ResourceList) (path : List ℕ) (s : Settings)
      → IsCounted l
      → (l' : ResourceList) × ((resource_register md5 alloc alloc_path (some l) path s).0 ≡ some l')
        × (l'.maxcount ≡ l.maxcount)
        × IsCounted l'
  unfolding resource_register
  resource_register-IsCounted alloc alloc_path l path s v =
      elim (Bool-cases (leb l.maxcount l.count)) [
        | inl full ↦ (l, rw (full, resource_register) refl, refl, v)
        | inr room ↦ elim (Option-cases (rewrite_first md5 path s l.resources)) [
          | inr (rs, e) ↦ (
            record l { resources = rs },
            rw (room, e, resource_register) refl,
            refl,
            ground (arith, length-rewrite_first path s l.resources rs e),
          )
          | inl e ↦
              elim (Option-cases
                (resource_create md5 alloc alloc_path path (path_type_of path) s)) [
                  | inl c ↦ (l, rw (room, e, c, resource_register) refl, refl, v)
                  | inr (r, c) ↦ (
                    record l { resources = l.resources ++ r ∷ []; count = u8 (l.count + 1) },
                    rw (room, e, c, resource_register) refl,
                    refl,
                    ground (arith, room, length-append l.resources (r ∷ [])),
                  )
                ]
        ]
      ]

  register_all-IsCounted :
      (es : List Entry) (l : ResourceList)
      → IsCounted l
      → (l' : ResourceList) × (register_all md5 es (some l) ≡ some l')
        × (l'.maxcount ≡ l.maxcount)
        × IsCounted l'
  unfolding register_all
  register_all-IsCounted [] l v = (l, refl, refl, v)
  register_all-IsCounted (e ∷ es) l v =
      let (l1, e1, m1, v1) =
        resource_register-IsCounted e.alloc e.alloc_path l e.path e.settings v in
      let (l2, e2, m2, v2) = register_all-IsCounted es l1 v1 in
      (l2, rw (e1, register_all) e2, m2 ∙ m1, v2)

  -- From a fresh table, every sequence of registrations, whichever allocations fail, leaves a table whose
  -- counter is the number of its nodes and at most the limit given, reduced to a byte.
  pub register_all-init-IsCounted :
      (es : List Entry) (res_maxcount : ℕ)
      → (l' : ResourceList) × (register_all md5 es (some (resource_init res_maxcount)) ≡ some l')
        × (l'.maxcount ≡ u8 res_maxcount)
        × IsCounted l'
  register_all-init-IsCounted es n =
      register_all-IsCounted es (resource_init n)
        (record { exact = refl; bounded = omega arith; byte = omega arith })

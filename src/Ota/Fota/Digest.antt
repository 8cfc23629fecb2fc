-- ===== src/Ota/Fota/Digest.antt =====
-- What a fetch counts and feeds to the digest.
use nu_maker_mbed_aliyun_io.Base.{
  ℕ, ◌+◌, ◌≤◌, ◌<◌, ◌^◌, ◌≡◌, refl, subst, arith, Bool, true, false, not, leb, ◌==◌, if◌then◌else◌,
  some, List, [], ◌∷◌, ◌++◌, length, length-append, ℤ, pos, negsuc, Option-cases, inl, inr, ◌⊎◌,
  if_elim,
}
use nu_maker_mbed_aliyun_io.Base.Bits.{u32}
use nu_maker_mbed_aliyun_io.Ota.{
  Ota, OtaState, Channel, Outside, Fetched, broken, received, enter_fetching, fetch_count,
  fetch_renew, fetch_from, fetch_open, fetch_sha256, fetch_md5, fetch_yield, reopen, is_fetched,
  report_err, pushed, fetching, fetched, uninited, inited,
}
use nu_maker_mbed_aliyun_io.Ota.Fota.{bytes_of}

-- While nothing counts as fetched nothing is stored, and else the digest is fed with what is stored,
-- which is less than the file.
pub record IsFed (o : Ota) (stored : List ℕ) : Type 0 where
  pub counted : o.size_fetched ≡ length stored
  pub fed : (length stored ≡ 0) ⊎ (o.md5 ≡ some stored)
  pub short : (length stored ≡ 0) ⊎ (length stored < o.size_file)

-- The digest that was announced and the size of the file are these.
pub record Announced (sum : List ℕ) (size : ℕ) (o : Ota) : Type 0 where
  pub md5sum : o.md5sum ≡ sum
  pub size_file : o.size_file ≡ size

-- After a fetch: on an error all is as before; or the bytes are counted and fed to the digest, and the
-- file is complete exactly when the state says so.
abbrev pub After : List ℕ → ℕ → List ℕ → Ota × ℤ × List ℕ → Type 0
After sum size stored (o, negsuc n, bytes) = Announced sum size o × IsFed o stored
After sum size stored (o, pos n, bytes) =
    Announced sum size o
    × (o.md5 ≡ some (stored ++ bytes))
    × (o.size_fetched ≡ length (stored ++ bytes))
    × (is_fetched o.state ≡ leb size (length (stored ++ bytes)))

is_fetched-if :
    (b : Bool) (s : OtaState) → is_fetched s ≡ false → is_fetched (if b then fetched else s) ≡ b
is_fetched-if true s e = refl
is_fetched-if false s e = e

fetch_count-After :
    (o : Ota) (stored bytes : List ℕ)
    → o.size_fetched ≡ length stored
    → o.md5 ≡ some stored
    → length stored + length bytes < 2 ^ 32
    → is_fetched o.state ≡ false
    → After o.md5sum o.size_file stored (fetch_count o bytes)
unfolding fetch_count
fetch_count-After o stored bytes c m b f =
    let n : u32 (o.size_fetched + length bytes) ≡ length (stored ++ bytes) =
      omega (arith, length-append stored bytes) in
    (
      record { md5sum = refl; size_file = refl },
      rw m refl,
      n,
      rw n (is_fetched-if (leb o.size_file (length (stored ++ bytes))) o.state f),
    )

-- A fetch gives at most so many bytes, as the HTTP client is told.
abbrev pub Limits : ℕ → Outside → Type 0
Limits m w = (c : Channel) → length (bytes_of (w.fetch c)) ≤ m

fetch_renew-After :
    (w : Outside) (o : Ota) (stored bytes : List ℕ) (m : ℕ)
    → length bytes ≤ m
    → o.size_file + m < 2 ^ 32
    → is_fetched o.state ≡ false
    → IsFed o stored
    → After o.md5sum o.size_file stored (fetch_renew w o bytes)
unfolding fetch_renew
fetch_renew-After w o [] bytes m h b f v =
    let P : Ota × ℤ × List ℕ → Type 0 = After o.md5sum o.size_file [] in
    let zeroed : (o.size_fetched == 0) ≡ true = ground (arith, v.counted) in
    let kept : Announced o.md5sum o.size_file o = record { md5sum = refl; size_file = refl } in
    rw zeroed (
      if_elim P (not w.renew_md5)
        (λ _. (
          record { md5sum = refl; size_file = refl },
          record { counted = v.counted; fed = inl refl; short = inl refl },
        ))
        (λ _.
          if_elim P (not w.renew_sha256)
            (λ _. (
              record { md5sum = refl; size_file = refl },
              record { counted = v.counted; fed = inl refl; short = inl refl },
            ))
            (λ _.
              fetch_count-After
                (record o { md5 = some []; sha256 = some []; err = report_err w.report o.err }) []
                bytes v.counted refl (omega arith) f)))
fetch_renew-After w o (x ∷ stored) bytes m h b f v =
    let more : (o.size_fetched == 0) ≡ false = ground (arith, v.counted) in
    let fed : o.md5 ≡ some (x ∷ stored) = elim v.fed [
      | inl e ↦ absurd (omega (arith, e))
      | inr e ↦ e
    ] in
    let short : length (x ∷ stored) < o.size_file = elim v.short [
      | inl e ↦ absurd (omega (arith, e))
      | inr e ↦ e
    ] in
    rw more (fetch_count-After o (x ∷ stored) bytes v.counted fed (omega arith) f)

fetch_from-After :
    (w : Outside) (o : Ota) (c : Channel) (stored : List ℕ) (m : ℕ)
    → Limits m w
    → o.size_file + m < 2 ^ 32
    → is_fetched o.state ≡ false
    → IsFed o stored
    → After o.md5sum o.size_file stored (fetch_from w o c)
unfolding fetch_from
fetch_from-After w o c stored m h b f v = go (w.fetch c) refl
  where
    go : (r : Fetched) → w.fetch c ≡ r → After o.md5sum o.size_file stored (fetch_from w o c)
    go (broken n) e =
        rw (e, fetch_from)
          (
            record { md5sum = refl; size_file = refl },
            record { counted = v.counted; fed = v.fed; short = v.short },
          )
    go (received bytes) e =
        rw (e, fetch_from)
          (fetch_renew-After w
            (record o { ch_fetch = some (record c { fetch_size = c.fetch_size + length bytes }) })
            stored bytes m (subst (λ r. length (bytes_of r) ≤ m) e (h c)) b f
            (record { counted = v.counted; fed = v.fed; short = v.short }))

fetch_open-After :
    (w : Outside) (o : Ota) (stored : List ℕ) (m : ℕ)
    → Limits m w
    → o.size_file + m < 2 ^ 32
    → is_fetched o.state ≡ false
    → IsFed o stored
    → After o.md5sum o.size_file stored (fetch_open w o)
unfolding fetch_open
fetch_open-After w o stored m h b f v = elim (Option-cases o.ch_fetch) [
  | inr (c, e) ↦ rw (e, fetch_open) (fetch_from-After w o c stored m h b f v)
  | inl e ↦ elim (Option-cases (reopen w o)) [
    | inl g ↦ rw (e, fetch_open) (rw g (record { md5sum = refl; size_file = refl }, v))
    | inr (c, g) ↦
        rw (e, fetch_open)
          (rw g (
            fetch_from-After w (record o { ch_fetch = some c }) c stored m h b f
              (record { counted = v.counted; fed = v.fed; short = v.short })))
  ]
]

fetch_sha256-After :
    (w : Outside) (o : Ota) (stored : List ℕ) (m : ℕ)
    → Limits m w
    → o.size_file + m < 2 ^ 32
    → is_fetched o.state ≡ false
    → IsFed o stored
    → After o.md5sum o.size_file stored (fetch_sha256 w o)
unfolding fetch_sha256
fetch_sha256-After w o stored m h b f v =
    let P : Ota × ℤ × List ℕ → Type 0 = After o.md5sum o.size_file stored in
    elim (Option-cases o.sha256) [
      | inr (fed, e) ↦ rw (e, fetch_sha256) (fetch_open-After w o stored m h b f v)
      | inl e ↦
          rw (e, fetch_sha256)
            (if_elim P w.alloc_sha256
              (λ _.
                fetch_open-After w (record o { sha256 = some [] }) stored m h b f
                  (record { counted = v.counted; fed = v.fed; short = v.short }))
              (λ _. (record { md5sum = refl; size_file = refl }, v)))
    ]

fetch_md5-After :
    (w : Outside) (o : Ota) (stored : List ℕ) (m : ℕ)
    → Limits m w
    → o.size_file + m < 2 ^ 32
    → is_fetched o.state ≡ false
    → IsFed o stored
    → After o.md5sum o.size_file stored (fetch_md5 w o)
unfolding fetch_md5
fetch_md5-After w o stored m h b f v =
    let P : Ota × ℤ × List ℕ → Type 0 = After o.md5sum o.size_file stored in
    elim (Option-cases o.md5) [
      | inr (fed, e) ↦ rw (e, fetch_md5) (fetch_sha256-After w o stored m h b f v)
      | inl e ↦
          let empty : length stored ≡ 0 = elim v.fed [
            | inl z ↦ z
            | inr g ↦ absurd (ground (arith, e, g))
          ] in
          rw (e, fetch_md5)
            (if_elim P w.alloc_md5
              (λ _.
                fetch_sha256-After w (record o { md5 = some [] }) stored m h b f
                  (record { counted = v.counted; fed = inl empty; short = v.short }))
              (λ _. (record { md5sum = refl; size_file = refl }, v)))
    ]

is_fetched-enter_fetching : (s s' : OtaState) → enter_fetching s ≡ some s' → is_fetched s' ≡ false
unfolding enter_fetching
is_fetched-enter_fetching uninited s' e = cc
is_fetched-enter_fetching inited s' e = cc
is_fetched-enter_fetching pushed s' e =
    let h : fetching ≡ s' = ground (arith, e) in subst (λ t. is_fetched t ≡ false) h refl
is_fetched-enter_fetching fetching s' e =
    let h : fetching ≡ s' = ground (arith, e) in subst (λ t. is_fetched t ≡ false) h refl
is_fetched-enter_fetching fetched s' e = cc

pub fetch_yield-After :
    (w : Outside) (o : Ota) (stored : List ℕ) (m : ℕ)
    → Limits m w
    → o.size_file + m < 2 ^ 32
    → IsFed o stored
    → After o.md5sum o.size_file stored (fetch_yield w o m)
unfolding fetch_yield
fetch_yield-After w o stored m h b v =
    let P : Ota × ℤ × List ℕ → Type 0 = After o.md5sum o.size_file stored in
    if_elim P (m == 0) (λ _. (record { md5sum = refl; size_file = refl }, v))
      (λ _. elim (Option-cases (enter_fetching o.state)) [
        | inl e ↦
            rw (e, fetch_yield)
              (
                record { md5sum = refl; size_file = refl },
                record { counted = v.counted; fed = v.fed; short = v.short },
              )
        | inr (s, e) ↦
            rw (e, fetch_yield)
              (fetch_md5-After w (record o { state = s }) stored m h b
                (is_fetched-enter_fetching o.state s e)
                (record { counted = v.counted; fed = v.fed; short = v.short }))
      ])

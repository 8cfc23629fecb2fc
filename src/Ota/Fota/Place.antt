-- ===== src/Ota/Fota/Place.antt =====
-- The place in the file at which a fetch goes on.
use nu_maker_mbed_aliyun_io.Base.{
  ℕ, ◌+◌, ◌<◌, ◌^◌, ◌≡◌, refl, sym, ap, ◌∙◌, subst, arith, true, not, ◌==◌, Option, none, some,
  List, [], ◌++◌, append_assoc, drop, length, length-append, drop-append_length, ℤ, pos, negsuc,
  Option-cases, inl, inr, if_elim,
}
use nu_maker_mbed_aliyun_io.Ota.{
  Ota, OtaType, Channel, Outside, Fetched, broken, received, open_at, report_err, enter_fetching,
  fetch_count, fetch_renew, fetch_from, reopen, fetch_open, fetch_sha256, fetch_md5, fetch_yield,
  none_type, cota, fota, invalid_state,
}
use nu_maker_mbed_aliyun_io.Ota.Fota.{Updated, Next, over, again}

-- A download stands behind the first n bytes.
abbrev pub IsPlaced : ℕ → Option Channel → Type 0
IsPlaced n none = Unit
IsPlaced n (some c) = c.offset + c.fetch_size ≡ n

-- What is stored is the beginning of the file, and the download goes on behind it.
pub record IsAt (file : List ℕ) (o : Ota) (stored : List ℕ) : Type 0 where
  pub counted : o.size_fetched ≡ length stored
  pub missing : List ℕ
  pub split : stored ++ missing ≡ file
  pub placed : IsPlaced (length stored) o.ch_fetch

-- A fetch gives bytes of the file, from where its download stands.
abbrev pub Serves : List ℕ → Outside → Type 0
Serves file w =
    (c : Channel) (bytes : List ℕ)
    → w.fetch c ≡ received bytes
    → (rest : List ℕ) × (drop (c.offset + c.fetch_size) file ≡ bytes ++ rest)

abbrev pub Renews : Outside → Type 0
Renews w = (w.renew_md5 ≡ true) × (w.renew_sha256 ≡ true)

abbrev pub Holds : List ℕ → List ℕ → Ota × ℤ × List ℕ → Type 0
Holds file stored (o, negsuc n, bytes) = IsAt file o stored
Holds file stored (o, pos n, bytes) = IsAt file o (stored ++ bytes)

fetch_count-Holds :
    (file : List ℕ) (o : Ota) (stored bytes rest : List ℕ)
    → length file < 2 ^ 32
    → o.size_fetched ≡ length stored
    → stored ++ (bytes ++ rest) ≡ file
    → IsPlaced (length (stored ++ bytes)) o.ch_fetch
    → Holds file stored (fetch_count o bytes)
unfolding fetch_count
fetch_count-Holds file o stored bytes rest b n s p =
    let total : length stored + (length bytes + length rest) ≡ length file =
      omega (arith, length-append stored (bytes ++ rest), length-append bytes rest, ap length s) in
    record {
      counted = omega (arith, length-append stored bytes, total, n, b);
      missing = rest;
      split = append_assoc stored bytes rest ∙ s;
      placed = p;
    }

fetch_renew-Holds :
    (file : List ℕ) (w : Outside) (o : Ota) (stored bytes rest : List ℕ)
    → Renews w
    → length file < 2 ^ 32
    → o.size_fetched ≡ length stored
    → stored ++ (bytes ++ rest) ≡ file
    → IsPlaced (length (stored ++ bytes)) o.ch_fetch
    → Holds file stored (fetch_renew w o bytes)
unfolding fetch_renew
fetch_renew-Holds file w o stored bytes rest r b n s p =
    let P : Ota × ℤ × List ℕ → Type 0 = Holds file stored in
    if_elim P (not (o.size_fetched == 0)) (λ _. fetch_count-Holds file o stored bytes rest b n s p)
      (λ _.
        rw (r.0, r.1)
          (fetch_count-Holds file
            (record o { md5 = some []; sha256 = some []; err = report_err w.report o.err }) stored
            bytes rest b n s p))

fetch_from-Holds :
    (file : List ℕ) (w : Outside) (o : Ota) (c : Channel) (stored : List ℕ)
    → Serves file w
    → Renews w
    → length file < 2 ^ 32
    → c.offset + c.fetch_size ≡ length stored
    → IsAt file o stored
    → Holds file stored (fetch_from w o c)
unfolding fetch_from
fetch_from-Holds file w o c stored h r b p v = go (w.fetch c) refl
  where
    go : (x : Fetched) → w.fetch c ≡ x → Holds file stored (fetch_from w o c)
    go (broken n) e =
        rw (e, fetch_from)
          (record { counted = v.counted; missing = v.missing; split = v.split; placed = tt })
    go (received bytes) e =
        let (rest, f) = h c bytes e in
        let same : v.missing ≡ bytes ++ rest =
          sym (drop-append_length stored v.missing (length stored) refl)
          ∙ ap (drop (length stored)) v.split
          ∙ ap (λ n. drop n file) (sym p)
          ∙ f in
        rw (e, fetch_from)
          (fetch_renew-Holds file w
            (record o { ch_fetch = some (record c { fetch_size = c.fetch_size + length bytes }) })
            stored bytes rest r b v.counted (ap (◌++◌ stored) (sym same) ∙ v.split)
            (omega (arith, p, length-append stored bytes)))

open_at-placed :
    (w : Outside) (url : Option (List ℕ)) (n : ℕ) (c : Channel)
    → open_at w url n ≡ some c
    → c.offset + c.fetch_size ≡ n
open_at-placed w none n c e = cc
open_at-placed w (some url) n c e = ground (arith, e)

reopen-placed :
    (w : Outside) (o : Ota) (c : Channel)
    → reopen w o ≡ some c
    → c.offset + c.fetch_size ≡ o.size_fetched
unfolding reopen
reopen-placed w o c e = go o.type refl
  where
    go : (t : OtaType) → o.type ≡ t → c.offset + c.fetch_size ≡ o.size_fetched
    go none_type f =
        let k : reopen w o ≡ none = rw (f, reopen) refl in absurd (ground (arith, k, e))
    go cota f =
        let k : reopen w o ≡ open_at w o.cota_url o.size_fetched = rw (f, reopen) refl in
        open_at-placed w o.cota_url o.size_fetched c (sym k ∙ e)
    go fota f =
        let k : reopen w o ≡ open_at w o.purl o.size_fetched = rw (f, reopen) refl in
        open_at-placed w o.purl o.size_fetched c (sym k ∙ e)

-- A server that holds the file, and memory for the digests.
abbrev pub Works : List ℕ → Outside → Type 0
Works file w = Serves file w × Renews w

fetch_open-Holds :
    (file : List ℕ) (w : Outside) (o : Ota) (stored : List ℕ)
    → Works file w
    → length file < 2 ^ 32
    → IsAt file o stored
    → Holds file stored (fetch_open w o)
unfolding fetch_open
fetch_open-Holds file w o stored h b v = elim (Option-cases o.ch_fetch) [
  | inr (c, e) ↦
      rw (e, fetch_open)
        (fetch_from-Holds file w o c stored h.0 h.1 b (subst (IsPlaced (length stored)) e v.placed)
          v)
  | inl e ↦ elim (Option-cases (reopen w o)) [
    | inl g ↦ rw (e, fetch_open) (rw g v)
    | inr (c, g) ↦
        let p : c.offset + c.fetch_size ≡ length stored = reopen-placed w o c g ∙ v.counted in
        rw (e, fetch_open)
          (rw g (
            fetch_from-Holds file w (record o { ch_fetch = some c }) c stored h.0 h.1 b p
              (record { counted = v.counted; missing = v.missing; split = v.split; placed = p })))
  ]
]

-- What the fetch looks at before the download leaves the place alone.
pub IsAt-fields :
    (file : List ℕ) (o o' : Ota) (stored : List ℕ)
    → o'.size_fetched ≡ o.size_fetched
    → o'.ch_fetch ≡ o.ch_fetch
    → IsAt file o stored
    → IsAt file o' stored
IsAt-fields file o o' stored n c v = record {
  counted = n ∙ v.counted;
  missing = v.missing;
  split = v.split;
  placed = subst (IsPlaced (length stored)) (sym c) v.placed;
}

pub fetch_yield-Holds :
    (file : List ℕ) (w : Outside) (o : Ota) (stored : List ℕ) (m : ℕ)
    → Works file w
    → length file < 2 ^ 32
    → IsAt file o stored
    → Holds file stored (fetch_yield w o m)
unfolding fetch_yield fetch_md5 fetch_sha256
fetch_yield-Holds file w o stored m h b v =
    let P : Ota × ℤ × List ℕ → Type 0 = Holds file stored in
    let sha256 : (o' : Ota) → IsAt file o' stored → P (fetch_sha256 w o') = λ o' v'.
      elim (Option-cases o'.sha256) [
        | inr (fed, e) ↦ rw (e, fetch_sha256) (fetch_open-Holds file w o' stored h b v')
        | inl e ↦
            rw (e, fetch_sha256)
              (if_elim P w.alloc_sha256
                (λ _.
                  fetch_open-Holds file w (record o' { sha256 = some [] }) stored h b
                    (IsAt-fields file o' (record o' { sha256 = some [] }) stored refl refl v'))
                (λ _. v'))
      ] in
    let md5 : (o' : Ota) → IsAt file o' stored → P (fetch_md5 w o') = λ o' v'.
      elim (Option-cases o'.md5) [
        | inr (fed, e) ↦ rw (e, fetch_md5) (sha256 o' v')
        | inl e ↦
            rw (e, fetch_md5)
              (if_elim P w.alloc_md5
                (λ _.
                  sha256 (record o' { md5 = some [] })
                    (IsAt-fields file o' (record o' { md5 = some [] }) stored refl refl v'))
                (λ _. v'))
      ] in
    if_elim P (m == 0) (λ _. v)
      (λ _. elim (Option-cases (enter_fetching o.state)) [
        | inl e ↦
            rw (e, fetch_yield)
              (IsAt-fields file o (record o { err = invalid_state }) stored refl refl v)
        | inr (s, e) ↦
            rw (e, fetch_yield)
              (md5 (record o { state = s })
                (IsAt-fields file o (record o { state = s }) stored refl refl v))
      ])

-- What is stored is the beginning of the file.
abbrev pub IsPrefix : List ℕ → Updated → Type 0
IsPrefix file u = (missing : List ℕ) × (u.stored ++ missing ≡ file)

abbrev pub Continues : List ℕ → Next → Type 0
Continues file (over u) = IsPrefix file u
Continues file (again o stored retry) = IsAt file o stored

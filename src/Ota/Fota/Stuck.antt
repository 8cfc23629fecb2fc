-- ===== src/Ota/Fota/Stuck.antt =====
-- The end of a download that fails, and the state that it leaves.
use nu_maker_mbed_aliyun_io.Base.{
  same_bytes, ℕ, ◌+◌, ◌-◌, ◌*◌, ◌≤◌, ◌<◌, ◌≡◌, ◌≢◌, refl, ◌⊎◌, ap, ◌∙◌, subst, arith, true, false,
  leb, ◌==◌, Option, none, some, List, [], ◌∷◌, length, ℤ, pos, negsuc, All, Bool-cases,
  Option-cases, inl, inr, if_elim, gt→leb,
}
use nu_maker_mbed_aliyun_io.Ota.{
  Ota, Channel, Outside, broken, enter_fetching, fetch_from, fetch_open, fetch_sha256, fetch_md5,
  fetch_yield, reopen, fota, pushed, fetching, is_before_pushed, ioctl, command, type_number,
  fail_return, open_at, report_err,
}
use nu_maker_mbed_aliyun_io.Ota.Push.{
  Parser, push_fota, push_data, start_fota, get_params, get_url, get_md5, get_size, Varlen, absent,
  failed, copied, varlen_para, fixlen_para, key_version, key_url, key_md5, key_size, is_busy,
  key_message, key_data, text_success,
}
use nu_maker_mbed_aliyun_io.Ota.Fota.Start.{perform_sync-starts}
use nu_maker_mbed_aliyun_io.Ota.Fota.{
  Turn, fetch_failed, Updated, over, again, turn_failed, turn_on, fota_loop, sync_with,
  perform_sync, reset, reset_size, fota_retry_interval_ms,
}
use nu_maker_mbed_aliyun_io.Ota.Fota.Integrity.{reset_size-late}

-- No fetch succeeds.
abbrev pub Fails : Outside → Type 0
Fails w = (c : Channel) → (n : ℕ) × (w.fetch c ≡ broken n)

-- An error, in the state of a download that is under way.
abbrev IsBroken : Ota × ℤ × List ℕ → Type 0
IsBroken (o, pos n, bytes) = ⊥
IsBroken (o, negsuc n, bytes) = o.state ≡ fetching

fetch_from-IsBroken :
    (w : Outside) (o : Ota) (c : Channel)
    → Fails w
    → o.state ≡ fetching
    → IsBroken (fetch_from w o c)
unfolding fetch_from
fetch_from-IsBroken w o c f s = let (n, e) = f c in rw (e, fetch_from) s

fetch_open-IsBroken :
    (w : Outside) (o : Ota) → Fails w → o.state ≡ fetching → IsBroken (fetch_open w o)
unfolding fetch_open
fetch_open-IsBroken w o f s = elim (Option-cases o.ch_fetch) [
  | inr (c, e) ↦ rw (e, fetch_open) (fetch_from-IsBroken w o c f s)
  | inl e ↦ elim (Option-cases (reopen w o)) [
    | inl g ↦ rw (e, fetch_open) (rw g s)
    | inr (c, g) ↦
        rw (e, fetch_open) (rw g (fetch_from-IsBroken w (record o { ch_fetch = some c }) c f s))
  ]
]

fetch_sha256-IsBroken :
    (w : Outside) (o : Ota) → Fails w → o.state ≡ fetching → IsBroken (fetch_sha256 w o)
unfolding fetch_sha256
fetch_sha256-IsBroken w o f s = elim (Option-cases o.sha256) [
  | inr (fed, e) ↦ rw (e, fetch_sha256) (fetch_open-IsBroken w o f s)
  | inl e ↦
      rw (e, fetch_sha256)
        (if_elim IsBroken w.alloc_sha256
          (λ _. fetch_open-IsBroken w (record o { sha256 = some [] }) f s) (λ _. s))
]

fetch_md5-IsBroken :
    (w : Outside) (o : Ota) → Fails w → o.state ≡ fetching → IsBroken (fetch_md5 w o)
unfolding fetch_md5
fetch_md5-IsBroken w o f s = elim (Option-cases o.md5) [
  | inr (fed, e) ↦ rw (e, fetch_md5) (fetch_sha256-IsBroken w o f s)
  | inl e ↦
      rw (e, fetch_md5)
        (if_elim IsBroken w.alloc_md5
          (λ _. fetch_sha256-IsBroken w (record o { md5 = some [] }) f s) (λ _. s))
]

fetch_yield-IsBroken :
    (w : Outside) (o : Ota) (m : ℕ)
    → Fails w
    → m ≢ 0
    → enter_fetching o.state ≡ some fetching
    → IsBroken (fetch_yield w o m)
unfolding fetch_yield
fetch_yield-IsBroken w o m f room e =
    if_elim IsBroken (m == 0) (λ z. absurd (room (ground (arith, z))))
      (λ _. rw (e, fetch_yield) (fetch_md5-IsBroken w (record o { state = fetching }) f refl))

-- The update is given up, and its state goes on being that of a download.
abbrev pub GivesUp : List ℕ → Updated → Type 0
GivesUp stored u = (u.verdict ≡ fetch_failed) × (u.stored ≡ stored) × (u.ota.state ≡ fetching)

turn_on-over :
    (md5_of : List ℕ → List ℕ) (retry_max : ℕ) (t : Turn) (stored : List ℕ) (retry : ℕ)
    (r : Ota × ℤ × List ℕ)
    → IsBroken r
    → retry_max ≤ retry
    → (u : Updated) × (turn_on md5_of retry_max t stored retry r ≡ over u) × GivesUp stored u
unfolding turn_on turn_failed reset ioctl
turn_on-over md5_of retry_max t stored retry (o, pos n, bytes) b h = absurd b
turn_on-over md5_of retry_max t stored retry (o, negsuc n, bytes) b h =
    let e : leb retry_max retry ≡ true = ground arith in
    let u : Updated = record {
      ota = record o { err = report_err t.report o.err };
      stored = stored;
      verdict = fetch_failed;
    } in
    (u, rw e refl, (refl, refl, b))

turn_on-again :
    (md5_of : List ℕ → List ℕ) (retry_max : ℕ) (t : Turn) (stored : List ℕ) (retry : ℕ)
    (r : Ota × ℤ × List ℕ)
    → IsBroken r
    → retry < retry_max
    → (o : Ota) × (turn_on md5_of retry_max t stored retry r
        ≡ again o stored (retry + fota_retry_interval_ms))
      × (o.state ≡ fetching)
unfolding turn_on turn_failed
turn_on-again md5_of retry_max t stored retry (o, pos n, bytes) b h = absurd b
turn_on-again md5_of retry_max t stored retry (o, negsuc n, bytes) b h =
    (o, rw (gt→leb retry_max retry h) refl, b)

fota_loop-GivesUp :
    (md5_of : List ℕ → List ℕ) (output_len retry_max k : ℕ) (ts : List Turn) (o : Ota)
    (stored : List ℕ) (retry : ℕ)
    → All (λ t. Fails t.outside) ts
    → output_len ≢ 0
    → enter_fetching o.state ≡ some fetching
    → retry_max ≤ retry + k * fota_retry_interval_ms
    → k < length ts
    → (u : Updated) × (fota_loop md5_of output_len retry_max ts o stored retry ≡ some u)
      × GivesUp stored u
unfolding fota_loop enter_fetching
fota_loop-GivesUp md5_of output_len retry_max k [] o stored retry f room s h n =
    absurd (omega arith)
fota_loop-GivesUp md5_of output_len retry_max k (t ∷ ts) o stored retry f room s h n =
    let b = fetch_yield-IsBroken t.outside o output_len f.0 room s in
    elim (Bool-cases (leb retry_max retry)) [
      | inl late ↦
          let (u, e, g) =
            turn_on-over md5_of retry_max t stored retry (fetch_yield t.outside o output_len) b
              (ground (arith, late)) in
          (u, rw (e, fota_loop) refl, g)
      | inr early ↦
          let lt : retry < retry_max = ground (arith, early) in
          let (o', e, s') =
            turn_on-again md5_of retry_max t stored retry (fetch_yield t.outside o output_len) b
              lt in
          let (u, e', g) =
            fota_loop-GivesUp md5_of output_len retry_max (k - 1) ts o' stored
              (retry + fota_retry_interval_ms) f.1 room (rw s' refl) (omega (arith, lt, h))
              (omega (arith, lt, h, n)) in
          (u, rw (e, fota_loop) e', g)
    ]

-- If there is a buffer and an update, a firmware is announced and no fetch succeeds: when retries may take at most k times
-- 100 ms, dm_fota_perform_sync ends after at most k + 1 fetches and reports that the fetch failed, with
-- nothing stored; but its reset of the state is refused, the update stays in the state of a download,
-- and every later message that announces a firmware is rejected without any change.
pub perform_sync-GivesUp :
    (md5_of : List ℕ → List ℕ) (output_len retry_max k : ℕ) (ts : List Turn) (o : Ota)
    → o.type ≡ fota
    → o.state ≡ pushed
    → All (λ t. Fails t.outside) ts
    → output_len ≢ 0
    → retry_max ≤ k * fota_retry_interval_ms
    → k < length ts
    → (u : Updated) × (perform_sync md5_of true output_len true retry_max ts o ≡ some u)
      × GivesUp [] u
      × ((w : Outside) (p : Parser) (msg : List ℕ) → push_fota w p msg u.ota ≡ (u.ota, fail_return))
unfolding sync_with ioctl command push_fota enter_fetching
perform_sync-GivesUp md5_of output_len retry_max k ts o is_fota is_pushed f room h n =
    let late : is_before_pushed o.state ≡ false = rw is_pushed refl in
    let typed : (type_number o.type == type_number fota) ≡ true = rw is_fota refl in
    let (u, e, g) =
      fota_loop-GivesUp md5_of output_len retry_max k ts (record o { size_fetched = 0 }) [] 0 f room
        (rw is_pushed refl) (omega (arith, h)) n in
    (
      u,
      perform_sync-starts md5_of output_len retry_max ts o room
          ∙ rw (late, reset_size-late md5_of o late, typed) e,
      g,
      λ w p msg. rw g.2 refl,
    )

-- An accepted message leaves a download opened at byte n.
abbrev IsOpened : ℕ → Ota × ℤ → Type 0
IsOpened n r =
    r.1 ≡ pos 0 → (c : Channel) × (r.0.ch_fetch ≡ some c) × (c.offset ≡ n) × (r.0.state ≡ pushed)

open_at-offset :
    (w : Outside) (url : Option (List ℕ)) (n : ℕ) (c : Channel)
    → open_at w url n ≡ some c
    → c.offset ≡ n
open_at-offset w none n c e = cc
open_at-offset w (some url) n c e = ground (arith, e)

start_fota-IsOpened : (w : Outside) (o : Ota) → IsOpened o.size_fetched (start_fota w o)
unfolding start_fota
start_fota-IsOpened w o = elim (Option-cases (open_at w o.purl o.size_fetched)) [
  | inl e ↦ rw (e, start_fota) (λ f. absurd (ground (arith, f)))
  | inr (c, e) ↦
      rw (e, start_fota) (λ f. (c, refl, open_at-offset w o.purl o.size_fetched c e, refl))
]

-- The three ways in which a text is read.
Varlen-cases : (r : Varlen) → (r ≡ absent) ⊎ ((r ≡ failed) ⊎ ((v : List ℕ) × (r ≡ copied v)))
Varlen-cases absent = inl refl
Varlen-cases failed = inr (inl refl)
Varlen-cases (copied v) = inr (inr (v, refl))

get_md5-size_fetched :
    (p : Parser) (text : List ℕ) (o : Ota) → (get_md5 p text o).0.size_fetched ≡ o.size_fetched
unfolding get_md5 get_size
get_md5-size_fetched p text o = elim (Option-cases (fixlen_para 32 (p.value_of text key_md5))) [
  | inl g ↦ rw (g, get_md5) refl
  | inr (m, g) ↦
      rw (g, get_md5)
        (elim (Option-cases (fixlen_para 16 (p.value_of text key_size))) [
          | inl h ↦ rw (h, get_size) refl
          | inr (z, h) ↦ rw (h, get_size) refl
        ])
]

get_url-size_fetched :
    (p : Parser) (text : List ℕ) (o : Ota) → (get_url p text o).0.size_fetched ≡ o.size_fetched
unfolding get_url
get_url-size_fetched p text o =
    elim (Varlen-cases (varlen_para p.alloc_url (p.value_of text key_url))) [
      | inl f ↦ rw (f, get_url) refl
      | inr (inl f) ↦ rw (f, get_url) refl
      | inr (inr (u, f)) ↦
          rw (f, get_url) (get_md5-size_fetched p text (record o { purl = some u }))
    ]

get_params-size_fetched :
    (p : Parser) (text : List ℕ) (o : Ota) → (get_params p text o).0.size_fetched ≡ o.size_fetched
unfolding get_params
get_params-size_fetched p text o =
    elim (Varlen-cases (varlen_para p.alloc_version (p.value_of text key_version))) [
      | inl e ↦ rw (e, get_params) refl
      | inr (inl e) ↦ rw (e, get_params) refl
      | inr (inr (v, e)) ↦
          rw (e, get_params) (get_url-size_fetched p text (record o { version = some v }))
    ]

push_data-IsOpened :
    (w : Outside) (p : Parser) (msg : List ℕ) (o : Ota)
    → IsOpened o.size_fetched (push_data w p msg o)
unfolding push_data
push_data-IsOpened w p msg o = elim (Option-cases (p.value_of msg key_data)) [
  | inl e ↦ rw (e, push_data) (λ f. absurd (ground (arith, f)))
  | inr (text, e) ↦
      rw (e, push_data)
        (if_elim (IsOpened o.size_fetched) (get_params p text o).1
          {x = start_fota w (get_params p text o).0} {y = ((get_params p text o).0, fail_return)}
          (λ _.
            subst (λ k. IsOpened k (start_fota w (get_params p text o).0))
              (get_params-size_fetched p text o) (start_fota-IsOpened w (get_params p text o).0))
          (λ _ f. absurd (ground (arith, f))))
]

push_fota-IsOpened :
    (w : Outside) (p : Parser) (msg : List ℕ) (o : Ota)
    → IsOpened o.size_fetched (push_fota w p msg o)
unfolding push_fota
push_fota-IsOpened w p msg o =
    let P : Ota × ℤ → Type 0 = IsOpened o.size_fetched in
    if_elim P (is_busy o.state) (λ _ f. absurd (ground (arith, f)))
      (λ _. elim (Option-cases (p.value_of msg key_message)) [
        | inl e ↦ rw (e, push_fota) (λ f. absurd (ground (arith, f)))
        | inr (v, e) ↦
            rw (e, push_fota)
              (if_elim P (same_bytes v text_success) (λ _. push_data-IsOpened w p msg o)
                (λ _ f. absurd (ground (arith, f))))
      ])

-- A message that announces a firmware and is accepted opens the download at the number of bytes fetched
-- before, whatever they belonged to: after an earlier download the new firmware is asked for from there
-- on, and its beginning is left out. The reset of that number, which dm_fota_perform_sync makes first,
-- leaves the download as it was opened.
pub push_fota-Stale :
    (md5_of : List ℕ → List ℕ) (w : Outside) (p : Parser) (msg : List ℕ) (o : Ota)
    → (push_fota w p msg o).1 ≡ pos 0
    → (c : Channel) × ((push_fota w p msg o).0.ch_fetch ≡ some c)
      × (c.offset ≡ o.size_fetched)
      × ((push_fota w p msg o).0.state ≡ pushed)
      × ((reset_size md5_of (push_fota w p msg o).0).ch_fetch ≡ some c)
      × ((reset_size md5_of (push_fota w p msg o).0).size_fetched ≡ 0)
push_fota-Stale md5_of w p msg o e =
    let (c, opened, at, now) = push_fota-IsOpened w p msg o e in
    let late : is_before_pushed (push_fota w p msg o).0.state ≡ false = rw now refl in
    let same = reset_size-late md5_of (push_fota w p msg o).0 late in
    (
      c,
      opened,
      at,
      now,
      ap (λ (x : Ota). x.ch_fetch) same ∙ opened,
      ap (λ (x : Ota). x.size_fetched) same,
    )

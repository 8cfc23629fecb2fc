-- ===== src/Ota/Fota/Complete.antt =====
-- A download that goes well comes to its end.
use nu_maker_mbed_aliyun_io.Base.{
  same_bytes, same_bytes_refl, ℕ, ◌+◌, ◌≤◌, ◌<◌, ◌^◌, ◌≡◌, ◌≢◌, refl, sym, ap, ◌∙◌, subst, arith,
  Bool, true, false, not, leb, ◌==◌, ==-false, if◌then◌else◌, some, List, [], ◌∷◌, ◌++◌, length,
  length-append, ℤ, pos, negsuc, All, Bool-cases, Option-cases, inl, inr, ◌⊎◌, if_elim,
}
use nu_maker_mbed_aliyun_io.Base.Bits.{u32}
use nu_maker_mbed_aliyun_io.Ota.{
  Ota, OtaState, Channel, received, report_err, enter_fetching, fetch_count, fetch_renew,
  fetch_from, fetch_open, fetch_sha256, fetch_md5, fetch_yield, fota, pushed, fetching, fetched,
  is_fetched, is_uninited, is_fetch_finish, is_before_pushed, ioctl, command, check_md5,
  type_number, hex_text, c_text,
}
use nu_maker_mbed_aliyun_io.Ota.Fota.Start.{perform_sync-starts}
use nu_maker_mbed_aliyun_io.Ota.Fota.{
  Turn, success, Updated, image_verdict, check_image, Next, over, again, turn_stored, turn_received,
  turn_on, fota_loop, sync_with, perform_sync,
}
use nu_maker_mbed_aliyun_io.Ota.Fota.Digest.{IsFed, Announced, After, Limits, fetch_yield-After}
use nu_maker_mbed_aliyun_io.Ota.Fota.Integrity.{reset_size-late}
use nu_maker_mbed_aliyun_io.Ota.Fota.Place.{
  IsPlaced, IsAt, Works, Holds, fetch_yield-Holds, IsAt-fields,
}
use nu_maker_mbed_aliyun_io.Ota.Fota.Resume.{complete}

-- A turn in which memory and storage do their part, and the server gives at least one byte of the file
-- where one is missing.
pub record GoesWell (file : List ℕ) (t : Turn) : Type 0 where
  pub works : Works file t.outside
  pub memory : (t.outside.alloc_md5 ≡ true) × (t.outside.alloc_sha256 ≡ true)
  pub writes : t.writes ≡ true
  pub gives :
      (c : Channel)
      → c.offset + c.fetch_size < length file
      → (bytes : List ℕ) × (t.outside.fetch c ≡ received bytes) × (0 < length bytes)

-- Bytes were received, and the download is open.
abbrev Gains : Ota × ℤ × List ℕ → Type 0
Gains (o, negsuc n, bytes) = ⊥
Gains (o, pos n, bytes) =
    (0 < length bytes)
    × ((c : Channel) × (o.ch_fetch ≡ some c))
    × ((o.state ≡ fetching) ⊎ (o.state ≡ fetched))

fetch_count-Gains :
    (o : Ota) (bytes : List ℕ) (c : Channel)
    → 0 < length bytes
    → o.ch_fetch ≡ some c
    → o.state ≡ fetching
    → Gains (fetch_count o bytes)
unfolding fetch_count
fetch_count-Gains o bytes c n e s = (
  n,
  (c, e),
  elim (Bool-cases (leb o.size_file (u32 (o.size_fetched + length bytes)))) [
    | inl full ↦ inr (rw full refl)
    | inr partial ↦ inl (rw partial s)
  ],
)

fetch_renew-Gains :
    (file : List ℕ) (t : Turn) (o : Ota) (bytes : List ℕ) (c : Channel)
    → GoesWell file t
    → 0 < length bytes
    → o.ch_fetch ≡ some c
    → o.state ≡ fetching
    → Gains (fetch_renew t.outside o bytes)
unfolding fetch_renew
fetch_renew-Gains file t o bytes c v n e s =
    if_elim Gains (not (o.size_fetched == 0)) (λ _. fetch_count-Gains o bytes c n e s)
      (λ _.
        if_elim Gains (not t.outside.renew_md5) (λ lost. absurd (ground (arith, v.works.1.0, lost)))
          (λ _.
            if_elim Gains (not t.outside.renew_sha256)
              (λ lost. absurd (ground (arith, v.works.1.1, lost)))
              (λ _.
                fetch_count-Gains
                  (record o {
                    md5 = some [];
                    sha256 = some [];
                    err = report_err t.outside.report o.err;
                  })
                  bytes c n e s)))

fetch_open-Gains :
    (file : List ℕ) (t : Turn) (o : Ota) (c : Channel)
    → GoesWell file t
    → c.offset + c.fetch_size < length file
    → o.ch_fetch ≡ some c
    → o.state ≡ fetching
    → Gains (fetch_open t.outside o)
unfolding fetch_open fetch_from
fetch_open-Gains file t o c v lt e s =
    let (bytes, f, n) = v.gives c lt in
    let c' : Channel = record c { fetch_size = c.fetch_size + length bytes } in
    rw (e, fetch_open)
      (rw (f, fetch_from)
        (fetch_renew-Gains file t (record o { ch_fetch = some c' }) bytes c' v n refl s))

fetch_yield-Gains :
    (file : List ℕ) (t : Turn) (o : Ota) (c : Channel) (m : ℕ)
    → GoesWell file t
    → m ≢ 0
    → c.offset + c.fetch_size < length file
    → o.ch_fetch ≡ some c
    → enter_fetching o.state ≡ some fetching
    → Gains (fetch_yield t.outside o m)
unfolding fetch_yield fetch_md5 fetch_sha256
fetch_yield-Gains file t o c m v room lt e s =
    let sha256 : (o' : Ota)
        → o'.ch_fetch ≡ some c
        → o'.state ≡ fetching
        → Gains (fetch_sha256 t.outside o') =
      λ o' e' s'. elim (Option-cases o'.sha256) [
        | inr (fed, g) ↦ rw (g, fetch_sha256) (fetch_open-Gains file t o' c v lt e' s')
        | inl g ↦
            rw (g, fetch_sha256)
              (if_elim Gains t.outside.alloc_sha256
                (λ _. fetch_open-Gains file t (record o' { sha256 = some [] }) c v lt e' s')
                (λ lost. absurd (ground (arith, v.memory.1, lost))))
      ] in
    let md5 : (o' : Ota)
        → o'.ch_fetch ≡ some c
        → o'.state ≡ fetching
        → Gains (fetch_md5 t.outside o') =
      λ o' e' s'. elim (Option-cases o'.md5) [
        | inr (fed, g) ↦ rw (g, fetch_md5) (sha256 o' e' s')
        | inl g ↦
            rw (g, fetch_md5)
              (if_elim Gains t.outside.alloc_md5 (λ _. sha256 (record o' { md5 = some [] }) e' s')
                (λ lost. absurd (ground (arith, v.memory.0, lost))))
      ] in
    rw (==-false m 0 room) (rw (s, fetch_yield) (md5 (record o { state = fetching }) e refl))

-- The update is complete: the file is stored and accepted.
abbrev pub IsComplete : List ℕ → Updated → Type 0
IsComplete file u = (u.verdict ≡ success) × (u.stored ≡ file)

not-uninited : (s : OtaState) → is_uninited s ≡ true → (s ≡ fetching) ⊎ (s ≡ fetched) → ⊥
not-uninited s u (inl e) = absurd (ground (arith, ap is_uninited e, u))
not-uninited s u (inr e) = absurd (ground (arith, ap is_uninited e, u))

check_image-IsComplete :
    (file : List ℕ) (md5_of : List ℕ → List ℕ) (t : Turn) (o : Ota) (stored : List ℕ)
    → o.state ≡ fetched
    → o.md5 ≡ some stored
    → stored ≡ file
    → c_text o.md5sum ≡ hex_text (md5_of file)
    → IsComplete file (check_image md5_of t o stored)
unfolding check_image image_verdict ioctl command check_md5
check_image-IsComplete file md5_of t o stored s m e d =
    let early : is_before_pushed o.state ≡ false = rw s refl in
    let full : is_fetched o.state ≡ true = rw s refl in
    let same : same_bytes (c_text o.md5sum) (hex_text (md5_of stored)) ≡ true =
      rw (e, d) (same_bytes_refl (hex_text (md5_of file))) in
    rw early (rw full (rw (m, check_md5) (rw same (refl, e))))

-- A download under way: fed, placed and announced.
pub record IsGoing (file sum : List ℕ) (o : Ota) (stored : List ℕ) : Type 0 where
  pub fed : IsFed o stored
  pub at : IsAt file o stored
  pub announced : Announced sum (length file) o
  pub opened : (c : Channel) × (o.ch_fetch ≡ some c)
  pub ready : enter_fetching o.state ≡ some fetching

-- A turn that completes the update, or goes on with more of the file.
abbrev GoesOn : List ℕ → List ℕ → List ℕ → Next → Type 0
GoesOn file sum stored (over u) = IsComplete file u
GoesOn file sum stored (again o stored' retry) =
    IsGoing file sum o stored' × (length stored < length stored')

turn_on-GoesOn :
    (file sum : List ℕ) (md5_of : List ℕ → List ℕ) (retry_max : ℕ) (t : Turn) (stored : List ℕ)
    (retry : ℕ) (r : Ota × ℤ × List ℕ)
    → GoesWell file t
    → 0 < length file
    → c_text sum ≡ hex_text (md5_of file)
    → After sum (length file) stored r
    → Holds file stored r
    → Gains r
    → GoesOn file sum stored (turn_on md5_of retry_max t stored retry r)
unfolding turn_on turn_received turn_stored is_fetch_finish enter_fetching
turn_on-GoesOn file sum md5_of retry_max t stored retry (o, negsuc n, bytes) v some_byte d a h g =
    absurd g
turn_on-GoesOn file sum md5_of retry_max t stored retry (o, pos n, bytes) v some_byte d a h g =
    let P : Next → Type 0 = GoesOn file sum stored in
    let stored' : List ℕ = stored ++ bytes in
    let o' : Ota = record o { err = report_err t.report o.err } in
    let R : Ota × Bool → Type 0 =
      λ x. P (if x.1 then over (check_image md5_of t x.0 stored') else again x.0 stored' 0) in
    if_elim P (not t.writes) (λ lost. absurd (ground (arith, v.writes, lost)))
      (λ _.
        if_elim P (o.size_file == 0) (λ z. absurd (ground (arith, z, a.0.size_file, some_byte)))
          (λ _.
            if_elim R (is_uninited o.state) (λ u. absurd (not-uninited o.state u g.2))
              (λ _. elim g.2 [
                | inl s ↦
                    let partial : is_fetched o.state ≡ false = rw s refl in
                    let short : length stored' < length file = ground (arith, a.3, partial) in
                    rw partial (
                      record {
                        fed = record {
                          counted = a.2;
                          fed = inr a.1;
                          short = inr (omega (arith, short, a.0.size_file));
                        };
                        at = IsAt-fields file o o' stored' refl refl h;
                        announced = record { md5sum = a.0.md5sum; size_file = a.0.size_file };
                        opened = g.1;
                        ready = rw s refl;
                      },
                      omega (arith, length-append stored bytes, g.0),
                    )
                | inr s ↦
                    let full : is_fetched o.state ≡ true = rw s refl in
                    let enough : length file ≤ length stored' = ground (arith, a.3, full) in
                    rw full (
                      check_image-IsComplete file md5_of t o' stored' s a.1
                        (complete stored' h.missing file h.split enough) (ap c_text a.0.md5sum ∙ d))
              ])))

fota_loop-IsComplete :
    (file sum : List ℕ) (md5_of : List ℕ → List ℕ) (output_len retry_max : ℕ) (ts : List Turn)
    (o : Ota) (stored : List ℕ) (retry : ℕ)
    → All (GoesWell file) ts
    → All (λ t. Limits output_len t.outside) ts
    → output_len ≢ 0
    → 0 < length file
    → length file + output_len < 2 ^ 32
    → c_text sum ≡ hex_text (md5_of file)
    → IsGoing file sum o stored
    → length file ≤ length stored + length ts
    → (u : Updated) × (fota_loop md5_of output_len retry_max ts o stored retry ≡ some u)
      × IsComplete file u
unfolding fota_loop
fota_loop-IsComplete file sum md5_of output_len retry_max [] o stored retry v l room b k d g n =
    absurd (elim g.fed.short [
      | inl z ↦ omega (arith, z, n, b)
      | inr lt ↦ omega (arith, lt, n, g.announced.size_file)
    ])
fota_loop-IsComplete file sum md5_of output_len retry_max (t ∷ ts) o stored retry v l room b k d g
      n =
    let (c, e) = g.opened in
    let placed : c.offset + c.fetch_size ≡ length stored =
      subst (IsPlaced (length stored)) e g.at.placed in
    let lt : c.offset + c.fetch_size < length file = elim g.fed.short [
      | inl z ↦ omega (arith, placed, z, b)
      | inr short ↦ omega (arith, placed, short, g.announced.size_file)
    ] in
    let r : Ota × ℤ × List ℕ = fetch_yield t.outside o output_len in
    let a : After sum (length file) stored r =
      subst (λ k'. After sum k' stored r) g.announced.size_file
        (subst (λ k'. After k' o.size_file stored r) g.announced.md5sum
          (fetch_yield-After t.outside o stored output_len l.0
            (omega (arith, k, g.announced.size_file)) g.fed)) in
    go
      (λ o' stored' retry' g' n'.
        fota_loop-IsComplete file sum md5_of output_len retry_max ts o' stored' retry' v.1 l.1 room
          b k d g' n')
      (turn_on md5_of retry_max t stored retry r) refl
      (turn_on-GoesOn file sum md5_of retry_max t stored retry r v.0 b d a
        (fetch_yield-Holds file t.outside o stored output_len v.0.works (omega (arith, k)) g.at)
        (fetch_yield-Gains file t o c output_len v.0 room lt e g.ready))
  where
    go :
        ((o' : Ota) (stored' : List ℕ) (retry' : ℕ)
          → IsGoing file sum o' stored'
          → length file ≤ length stored' + length ts
          → (u : Updated) × (fota_loop md5_of output_len retry_max ts o' stored' retry' ≡ some u)
            × IsComplete file u)
        → (x : Next)
        → turn_on md5_of retry_max t stored retry (fetch_yield t.outside o output_len) ≡ x
        → GoesOn file sum stored x
        → (u : Updated) × (fota_loop md5_of output_len retry_max (t ∷ ts) o stored retry ≡ some u)
          × IsComplete file u
    go ih (over u) f s = (u, rw (f, fota_loop) refl, s)
    go ih (again o' stored' retry') f s =
        let (u, e', done) = ih o' stored' retry' s.0 (omega (arith, s.1, n)) in
        (u, rw (f, fota_loop) e', done)

-- If there is a buffer and an update, the announced size and digest are those of the server's file, which
-- is not empty and with the buffer below 2^32 bytes, the download of the firmware is announced and stands at its beginning, and memory, storage and server do their part,
-- at least one byte in each turn: after at most as many turns as the file has bytes dm_fota_perform_sync
-- succeeds, and the file is stored.
pub perform_sync-IsComplete :
    (file : List ℕ) (md5_of : List ℕ → List ℕ) (output_len retry_max : ℕ) (ts : List Turn) (o : Ota)
    (c : Channel)
    → All (GoesWell file) ts
    → All (λ t. Limits output_len t.outside) ts
    → output_len ≢ 0
    → 0 < length file
    → o.size_file ≡ length file
    → length file + output_len < 2 ^ 32
    → c_text o.md5sum ≡ hex_text (md5_of file)
    → o.ch_fetch ≡ some c
    → c.offset + c.fetch_size ≡ 0
    → o.type ≡ fota
    → o.state ≡ pushed
    → length file ≤ length ts
    → (u : Updated) × (perform_sync md5_of true output_len true retry_max ts o ≡ some u)
      × IsComplete file u
unfolding sync_with ioctl command enter_fetching
perform_sync-IsComplete file md5_of output_len retry_max ts o c v l room b size k d e z is_fota
      is_pushed n =
    let late : is_before_pushed o.state ≡ false = rw is_pushed refl in
    let typed : (type_number o.type == type_number fota) ≡ true = rw is_fota refl in
    let (u, f, done) =
      fota_loop-IsComplete file o.md5sum md5_of output_len retry_max ts
        (record o { size_fetched = 0 }) [] 0 v l room b k d
        (record {
          fed = record { counted = refl; fed = inl refl; short = inl refl };
          at = record {
            counted = refl;
            missing = file;
            split = refl;
            placed = subst (IsPlaced 0) (sym e) z;
          };
          announced = record { md5sum = refl; size_file = size };
          opened = (c, e);
          ready = rw is_pushed refl;
        })
        (omega (arith, n)) in
    (
      u,
      perform_sync-starts md5_of output_len retry_max ts o room
          ∙ rw (late, reset_size-late md5_of o late, typed) f,
      done,
    )

-- ===== src/Coap/Resource/Request/Paths.antt =====
-- The paths that CoAPRequestMessage_handle reads from a request, and when it calls a callback.
use nu_maker_mbed_aliyun_io.Base.{
  ℕ, zero, suc, ◌+◌, ◌-◌, ◌≤◌, ◌<◌, ◌≡◌, refl, sym, ap, ◌∙◌, arith, Bool, true, leb, ◌==◌,
  if◌then◌else◌, none, some, List, [], ◌∷◌, ◌++◌, length, replicate, All, Bool-cases, Option-cases,
  inl, inr, ◌≢◌, ◌↔◌, length-append,
}
use nu_maker_mbed_aliyun_io.Coap.Message.{MsgHeader, MsgOption, Message}
use nu_maker_mbed_aliyun_io.Coap.Resource.{max_path_len, Resource, by_path_get}
use nu_maker_mbed_aliyun_io.Coap.Resource.Request.{
  uri_path, copy_text, write_path, text_of, request_path, call, is_permitted, answer_resource,
  request_handle,
}

length-replicate_zero : (n : ℕ) → length (replicate {A = ℕ} n 0) ≡ n
length-replicate_zero zero = refl
length-replicate_zero (suc n) = ap suc (length-replicate_zero n)

length-copy_text : (len : ℕ) (text : List ℕ) → length (copy_text len text) ≡ len
unfolding copy_text
length-copy_text zero text = refl
length-copy_text (suc len) [] = ap suc (length-replicate_zero len)
length-copy_text (suc len) (zero ∷ text) = ap suc (length-replicate_zero len)
length-copy_text (suc len) (suc c ∷ text) = ap suc (length-copy_text len text)

write_path-fits :
    (written : List ℕ) (os : List MsgOption)
    → length written ≤ max_path_len
    → length (write_path written os) ≤ max_path_len
unfolding write_path
write_path-fits written [] h = h
write_path-fits written (o ∷ os) h = elim (Bool-cases (uri_path == o.num)) [
  | inl path ↦ elim (Bool-cases (leb (length written + o.len) (max_path_len - 1))) [
    | inl fits ↦
        rw (path, fits, write_path)
          (write_path-fits (written ++ b'/' ∷ copy_text o.len o.val) os (
            ground (
              arith,
              fits,
              length-append written (b'/' ∷ copy_text o.len o.val),
              length-copy_text o.len o.val,
            )))
    | inr full ↦ rw (path, full, write_path) (write_path-fits written os h)
  ]
  | inr other ↦ rw (other, write_path) (write_path-fits written os h)
]

-- No request makes the loop write past the 128 characters of the array.
pub write_path-bound : (os : List MsgOption) → length (write_path [] os) ≤ max_path_len
write_path-bound os = write_path-fits [] os (omega arith)

-- The path that the options mean: each Uri-Path value behind a slash.
unfoldable pub join_path : List MsgOption → List ℕ
join_path [] = []
join_path (o ∷ os) = if uri_path == o.num then b'/' ∷ o.val ++ join_path os else join_path os

-- The length of an option is that of its value, which holds no zero.
abbrev pub IsText : MsgOption → Type 0
IsText o = (o.len ≡ length o.val) × All (λ c. c ≢ 0) o.val

copy_text-exact : (text : List ℕ) → All (λ c. c ≢ 0) text → copy_text (length text) text ≡ text
unfolding copy_text
copy_text-exact [] a = refl
copy_text-exact (zero ∷ text) (n, a) = absurd (n refl)
copy_text-exact (suc c ∷ text) (n, a) = ap (λ t. suc c ∷ t) (copy_text-exact text a)

append_assoc : (xs ys zs : List ℕ) → (xs ++ ys) ++ zs ≡ xs ++ (ys ++ zs)
append_assoc [] ys zs = refl
append_assoc (x ∷ xs) ys zs = ap (λ l. x ∷ l) (append_assoc xs ys zs)

append_nil : (xs : List ℕ) → xs ++ [] ≡ xs
append_nil [] = refl
append_nil (x ∷ xs) = ap (λ l. x ∷ l) (append_nil xs)

write_path-join :
    (written : List ℕ) (os : List MsgOption)
    → All IsText os
    → length written + length (join_path os) < max_path_len
    → write_path written os ≡ written ++ join_path os
unfolding write_path join_path
write_path-join written [] a h = sym (append_nil written)
write_path-join written (o ∷ os) ((len, text), a) h = elim (Bool-cases (uri_path == o.num)) [
  | inl path ↦
      let h' : length written + suc (length (o.val ++ join_path os)) < max_path_len =
        rw (path, join_path) at h in
      let total = length-append o.val (join_path os) in
      let seg = b'/' ∷ o.val in
      let fits : leb (length written + o.len) (max_path_len - 1) ≡ true =
        ground (arith, len, total, h') in
      let copied : copy_text o.len o.val ≡ o.val =
        ap (λ n. copy_text n o.val) len ∙ copy_text-exact o.val text in
      rw (path, fits, copied, write_path, join_path)
        (write_path-join (written ++ seg) os a (omega (arith, length-append written seg, total, h'))
          ∙ append_assoc written seg (join_path os))
  | inr other ↦
      rw (other, write_path, join_path) (write_path-join written os a (rw (other, join_path) at h))
]

text_of-zero : (text rest : List ℕ) → All (λ c. c ≢ 0) text → text_of (text ++ 0 ∷ rest) ≡ some text
unfolding text_of
text_of-zero [] rest a = refl
text_of-zero (zero ∷ text) rest (n, a) = absurd (n refl)
text_of-zero (suc c ∷ text) rest (n, a) = rw (text_of-zero text rest a) refl

text_of-none : (text : List ℕ) → All (λ c. c ≢ 0) text → text_of text ≡ none
unfolding text_of
text_of-none [] a = refl
text_of-none (zero ∷ text) (n, a) = absurd (n refl)
text_of-none (suc c ∷ text) (n, a) = rw (text_of-none text a) refl

All-append :
    (xs ys : List ℕ) → All (λ c. c ≢ 0) xs → All (λ c. c ≢ 0) ys → All (λ c. c ≢ 0) (xs ++ ys)
All-append [] ys a b = b
All-append (x ∷ xs) ys (n, a) b = (n, All-append xs ys a b)

All-join_path : (os : List MsgOption) → All IsText os → All (λ c. c ≢ 0) (join_path os)
unfolding join_path
All-join_path [] a = _
All-join_path (o ∷ os) ((len, text), a) = elim (Bool-cases (uri_path == o.num)) [
  | inl path ↦
      rw (path, join_path)
        ((λ e. omega (arith, e)), All-append o.val (join_path os) text (All-join_path os a))
  | inr other ↦ rw (other, join_path) (All-join_path os a)
]

replicate-positive : (n : ℕ) → 0 < n → replicate {A = ℕ} n 0 ≡ 0 ∷ replicate (n - 1) 0
replicate-positive zero h = absurd (omega (arith, h))
replicate-positive (suc n) h = ap (λ k. 0 ∷ replicate k 0) (omega arith)

-- A request whose Uri-Path options are texts and make a path of less than 128 characters is looked up
-- under exactly that path: each value behind a slash, in the options' order.
pub request_path-join :
    (os : List MsgOption)
    → All IsText os
    → length (join_path os) < max_path_len
    → request_path os ≡ some (join_path os)
unfolding request_path
request_path-join os a h =
    let written : write_path [] os ≡ join_path os = write_path-join [] os a (omega (arith, h)) in
    rw (written, replicate-positive (max_path_len - length (join_path os)) (omega (arith, h)))
      (text_of-zero (join_path os) (replicate (max_path_len - length (join_path os) - 1) 0)
        (All-join_path os a))

-- One Uri-Path option of 127 characters fills the array, so that the path that is looked up has no end
-- in it.
pub request_path-unterminated :
    (o : MsgOption) → o.num ≡ uri_path → o.len ≡ 127 → IsText o → request_path (o ∷ []) ≡ none
unfolding request_path write_path
request_path-unterminated o n len (same, text) =
    let copied : copy_text o.len o.val ≡ o.val =
      ap (λ k. copy_text k o.val) same ∙ copy_text-exact o.val text in
    let whole : write_path [] (o ∷ []) ≡ b'/' ∷ o.val = rw (copied, len, n, write_path) refl in
    let full : max_path_len - length (b'/' ∷ o.val) ≡ 0 = omega (arith, same, len) in
    rw (whole, full, append_nil o.val) (text_of-none (b'/' ∷ o.val) ((λ e. omega (arith, e)), text))

answer_resource-call :
    (h : MsgHeader) (p path : List ℕ) (r : Resource) (ack : Bool) (f : ℕ)
    → (answer_resource h p (some r) ≡ call ack f path)
    → (p ≡ path)
      × (r.callback ≡ some f)
      × (is_permitted r.permission h.code ≡ true)
      × ((h.type == 0) ≡ ack)
unfolding answer_resource
answer_resource-call h p path r ack f e = elim (Option-cases r.callback) [
  | inl none_set ↦ absurd (ground (arith, e, none_set))
  | inr (g, set) ↦ elim (Bool-cases (is_permitted r.permission h.code)) [
    | inl allowed ↦
        let e' : call (h.type == 0) g p ≡ call ack f path =
          rw (set, allowed, answer_resource) at e in
        (ground (arith, e'), ground (arith, e', set), allowed, ground (arith, e'))
    | inr denied ↦ absurd (ground (arith, e, set, denied))
  ]
]

-- A request reaches a callback exactly when its path is a text, the node found under the path has the
-- callback, and the node's permission has the bit of the method; it is acknowledged first exactly when
-- it is confirmable.
pub request_handle-call_iff :
    (md5 : List ℕ → List ℕ) (rs : List Resource) (m : Message) (ack : Bool) (f : ℕ) (path : List ℕ)
    → (request_handle md5 rs m ≡ call ack f path) ↔ (
        (r : Resource) × (request_path m.options ≡ some path)
        × (by_path_get md5 rs path ≡ some r)
        × (r.callback ≡ some f)
        × (is_permitted r.permission m.header.code ≡ true)
        × ((m.header.type == 0) ≡ ack))
unfolding request_handle answer_resource
request_handle-call_iff md5 rs m ack f path = (
  λ e. elim (Option-cases (request_path m.options)) [
    | inl lost ↦ absurd (ground (arith, lost, e))
    | inr (p, read) ↦
        let e1 : answer_resource m.header p (by_path_get md5 rs p) ≡ call ack f path =
          rw (read, request_handle) at e in
        elim (Option-cases (by_path_get md5 rs p)) [
          | inl missing ↦ absurd (ground (arith, missing, e1))
          | inr (r, found) ↦
              let e2 : answer_resource m.header p (some r) ≡ call ack f path = rw found at e1 in
              let (same, set, allowed, acked) = answer_resource-call m.header p path r ack f e2 in
              (r, rw same at read, rw same at found, set, allowed, acked)
        ]
  ],
  λ (r, read, found, set, allowed, acked).
      rw (read, found, set, allowed, acked, request_handle, answer_resource) refl,
)

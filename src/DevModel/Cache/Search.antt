-- ===== src/DevModel/Cache/Search.antt =====
-- Looking a request up after inserting and removing.
use nu_maker_mbed_aliyun_io.Base.{
  ℕ, ◌<◌, ◌≡◌, refl, arith, true, leb, Option, none, some, List, [], ◌∷◌, ◌++◌, ℤ, pos, Bool-cases,
  Option-cases, inl, inr, ◌⊎◌, gt→leb, ◌≢◌,
}
use nu_maker_mbed_aliyun_io.DevModel.State.{eq_ℤ, eq_ℤ_iff, success_return, ctx_list_empty}
use nu_maker_mbed_aliyun_io.DevModel.Cache.{
  Node, new_node, Ctx, queue_maxlen, insert, find_node, search, remove_node, remove,
}

find_node-append :
    (ns : List Node) (n : Node) (msgid : ℤ)
    → find_node ns msgid ≡ none
    → n.msgid ≡ msgid
    → find_node (ns ++ n ∷ []) msgid ≡ some n
unfolding find_node
find_node-append [] n msgid h e = rw ((eq_ℤ_iff n.msgid msgid).1 e)
find_node-append (x ∷ ns) n msgid h e = ground (arith, find_node-append ns n msgid)

find_node-append_some :
    (ns : List Node) (n m : Node) (msgid : ℤ)
    → find_node ns msgid ≡ some m
    → find_node (ns ++ n ∷ []) msgid ≡ some m
unfolding find_node
find_node-append_some [] n m msgid h = cc
find_node-append_some (x ∷ ns) n m msgid h = ground (arith, find_node-append_some ns n m msgid)

-- An inserted request is found by its id, with what was inserted, if no older request has that id;
-- the id is not negative and the caller's slot is empty.
pub search-insert :
    (now : ℕ) (c : Ctx) (id : ℕ) (devid : ℤ) (type : ℕ) (payload : Option ℕ)
    → c.dmc_list_size < queue_maxlen
    → find_node c.dmc_list (pos id) ≡ none
    → search (insert true now c (pos id) devid type payload).0 (pos id) (some none)
      ≡ (success_return, some (some (new_node now (pos id) devid type payload)))
unfolding search insert
search-insert now c id devid type payload room absent = rw (
  gt→leb queue_maxlen c.dmc_list_size room,
  find_node-append c.dmc_list (new_node now (pos id) devid type payload) (pos id) absent refl,
)

-- Whether or not an insert under an id that is taken succeeds, the older request is found by that id.
pub search-insert_taken :
    (now : ℕ) (c : Ctx) (id : ℕ) (devid : ℤ) (type : ℕ) (payload : Option ℕ) (old : Node)
    → find_node c.dmc_list (pos id) ≡ some old
    → search (insert true now c (pos id) devid type payload).0 (pos id) (some none)
      ≡ (success_return, some (some old))
unfolding search insert
search-insert_taken now c id devid type payload old e =
    elim (Bool-cases (leb queue_maxlen c.dmc_list_size)) [
      | inl full ↦ rw (full, e)
      | inr room ↦ rw (
        room,
        find_node-append_some c.dmc_list (new_node now (pos id) devid type payload) old (pos id) e,
      )
    ]

remove_node-none : (ns : List Node) (id : ℤ) → find_node ns id ≡ none → remove_node ns id ≡ none
unfolding find_node remove_node
remove_node-none [] id h = refl
remove_node-none (n ∷ ns) id h = ground (arith, remove_node-none ns id)

remove_node-some :
    (ns : List Node) (id : ℤ) (n : Node)
    → find_node ns id ≡ some n
    → (ms : List Node) × (remove_node ns id ≡ some ms)
      × ((other : ℤ) → other ≢ id → find_node ms other ≡ find_node ns other)
unfolding find_node remove_node
remove_node-some [] id n h = cc
remove_node-some (x ∷ ns) id n h = elim (Bool-cases (eq_ℤ x.msgid id)) [
  | inl hit ↦ (ns, rw hit, λ other ne. ground (arith, eq_ℤ_iff x.msgid id, eq_ℤ_iff x.msgid other))
  | inr miss ↦
      let (ms, e, same) = remove_node-some ns id n (rw miss at h) in
      (x ∷ ms, rw (miss, e), λ other ne. ground (arith, same other ne))
]

-- A removal succeeds exactly when the request is found, and does not touch the requests under other ids.
pub search-remove :
    (c : Ctx) (id : ℤ)
    → ((find_node c.dmc_list id ≡ none) × (remove c id ≡ (c, ctx_list_empty)))
      ⊎ ((n : Node) × (find_node c.dmc_list id ≡ some n)
          × ((remove c id).1 ≡ success_return)
          × ((other : ℤ)
              → other ≢ id
              → find_node (remove c id).0.dmc_list other ≡ find_node c.dmc_list other))
unfolding remove
search-remove c id = elim (Option-cases (find_node c.dmc_list id)) [
  | inl e ↦ inl (e, rw (remove_node-none c.dmc_list id e, remove))
  | inr (n, e) ↦
      let (ms, f, same) = remove_node-some c.dmc_list id n e in
      inr (n, e, rw (f, remove), rw (f, remove) same)
]

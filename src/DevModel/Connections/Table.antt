-- ===== src/DevModel/Connections/Table.antt =====
-- What opening and closing do to the table of descriptors.
use nu_maker_mbed_aliyun_io.Base.{
  ℕ, zero, suc, ◌+◌, ◌<◌, ◌≡◌, refl, ap, subst, ◌∙◌, arith, ◌&&◌, not, Bool, true, lt→ltb, if_elim,
  Option, none, some, List, [], ◌∷◌, length, pos, ◌≢◌, Option-cases, inl, inr,
}
use nu_maker_mbed_aliyun_io.DevModel.State.{cm_fd_not_found}
use nu_maker_mbed_aliyun_io.DevModel.Connections.{
  Cm, slot, set_slot, is_open, fd_is_valid, free_fd, Opened, opened, refused, take_fd, get_fd,
  cm_open, cm_call,
}

some_inj : (a b : ℕ) → some a ≡ some b → a ≡ b
some_inj a b e = ap (λ o. elim o [ none ↦ 0 | some c ↦ c ]) e

-- The slot that the search returns is free and inside the table.
abbrev IsFree : List (Option ℕ) → ℕ → Type 0
IsFree hs fd = (slot fd hs ≡ none) × (fd < length hs)

pub free_fd-IsFree : (hs : List (Option ℕ)) (fd : ℕ) → free_fd hs ≡ some fd → IsFree hs fd
unfolding free_fd slot
free_fd-IsFree [] fd e = cc
free_fd-IsFree (none ∷ hs) fd e = subst (IsFree (none ∷ hs)) (some_inj 0 fd e) (refl, omega arith)
free_fd-IsFree (some h ∷ hs) fd e = elim (Option-cases (free_fd hs)) [
  | inl f ↦ cc (rw (free_fd, f) at e)
  | inr (k, f) ↦
      let (free, b) = free_fd-IsFree hs k f in
      subst (IsFree (some h ∷ hs)) (some_inj (suc k) fd (rw f at e)) (free, omega arith)
]

pub slot-set_slot :
    (fd : ℕ) (h : Option ℕ) (hs : List (Option ℕ)) → fd < length hs → slot fd (set_slot fd h hs) ≡ h
unfolding slot set_slot
slot-set_slot fd h [] b = absurd (omega (arith, b))
slot-set_slot zero h (g ∷ gs) b = refl
slot-set_slot (suc fd) h (g ∷ gs) b = slot-set_slot fd h gs (omega arith)

pub slot-set_slot_other :
    (fd other : ℕ) (h : Option ℕ) (hs : List (Option ℕ))
    → other ≢ fd
    → slot other (set_slot fd h hs) ≡ slot other hs
unfolding slot set_slot
slot-set_slot_other fd other h [] n = refl
slot-set_slot_other zero zero h (g ∷ gs) n = absurd (n refl)
slot-set_slot_other zero (suc other) h (g ∷ gs) n = refl
slot-set_slot_other (suc fd) zero h (g ∷ gs) n = refl
slot-set_slot_other (suc fd) (suc other) h (g ∷ gs) n =
    slot-set_slot_other fd other h gs (λ e. n (ap suc e))

pub length-set_slot :
    (fd : ℕ) (h : Option ℕ) (hs : List (Option ℕ)) → length (set_slot fd h hs) ≡ length hs
unfolding set_slot
length-set_slot fd h [] = refl
length-set_slot zero h (g ∷ gs) = refl
length-set_slot (suc fd) h (g ∷ gs) = ap suc (length-set_slot fd h gs)

-- How many descriptors are open.
unfoldable pub count_open : List (Option ℕ) → ℕ
count_open [] = 0
count_open (none ∷ hs) = count_open hs
count_open (some h ∷ hs) = count_open hs + 1

free_fd-full : (hs : List (Option ℕ)) → free_fd hs ≡ none → count_open hs ≡ length hs
unfolding free_fd count_open
free_fd-full [] e = refl
free_fd-full (none ∷ hs) e = cc
free_fd-full (some h ∷ hs) e = elim (Option-cases (free_fd hs)) [
  | inl f ↦ omega (arith, free_fd-full hs f)
  | inr (fd, f) ↦ cc (rw (free_fd, f) at e)
]

pub count_open-take :
    (fd h : ℕ) (hs : List (Option ℕ))
    → slot fd hs ≡ none
    → fd < length hs
    → count_open (set_slot fd (some h) hs) ≡ count_open hs + 1
unfolding slot set_slot count_open
count_open-take fd h [] e b = omega (arith, b)
count_open-take zero h (none ∷ gs) e b = refl
count_open-take zero h (some g ∷ gs) e b = cc
count_open-take (suc fd) h (none ∷ gs) e b = count_open-take fd h gs e (omega arith)
count_open-take (suc fd) h (some g ∷ gs) e b =
    omega (arith, count_open-take fd h gs e (omega arith))

pub count_open-release :
    (fd : ℕ) (hs : List (Option ℕ))
    → is_open (slot fd hs) ≡ true
    → count_open (set_slot fd none hs) + 1 ≡ count_open hs
unfolding slot set_slot count_open
count_open-release fd [] e = cc
count_open-release zero (none ∷ gs) e = cc
count_open-release zero (some g ∷ gs) e = refl
count_open-release (suc fd) (none ∷ gs) e = count_open-release fd gs e
count_open-release (suc fd) (some g ∷ gs) e = omega (arith, count_open-release fd gs e)

-- What is known when a call of iotx_cm_open has returned a descriptor.
abbrev IsOpened : ℕ → Cm → Opened × Cm → Type 0
IsOpened handle cm r =
    (fd : ℕ)
    → r.0 ≡ opened fd
    → (slot fd cm.cm_fd ≡ none)
      × (cm_call (pos fd) r.1 ≡ some handle)
      × ((other : ℕ) → other ≢ fd → slot other r.1.cm_fd ≡ slot other cm.cm_fd)
      × (count_open r.1.cm_fd ≡ count_open cm.cm_fd + 1)

opened_inj : (a b : ℕ) → opened a ≡ opened b → a ≡ b
opened_inj a b e = ap (λ o. elim o [ opened c ↦ c | refused s ↦ 0 ]) e

take_fd-IsOpened :
    (handle : ℕ) (cm : Cm)
    → length cm.cm_fd ≡ 3
    → cm.fd_lock ≡ true
    → IsOpened handle cm (take_fd handle (free_fd cm.cm_fd) cm)
unfolding take_fd cm_call fd_is_valid
take_fd-IsOpened handle cm size lock = elim (Option-cases (free_fd cm.cm_fd)) [
  | inl e ↦ rw e (λ fd h. cc)
  | inr (k, e) ↦
      let (free, b) = free_fd-IsFree cm.cm_fd k e in
      let filled = slot-set_slot k (some handle) cm.cm_fd b in
      rw e (λ fd h.
        subst
          (λ fd.
            (slot fd cm.cm_fd ≡ none)
            × (cm_call (pos fd) (record cm { cm_fd = set_slot k (some handle) cm.cm_fd })
                ≡ some handle)
            × ((other : ℕ)
                → other ≢ fd
                → slot other (set_slot k (some handle) cm.cm_fd) ≡ slot other cm.cm_fd)
            × (count_open (set_slot k (some handle) cm.cm_fd) ≡ count_open cm.cm_fd + 1))
          (opened_inj k fd h)
          (
            free,
            rw (lock, lt→ltb k 3 (omega arith), filled) refl,
            (λ other n. slot-set_slot_other k other (some handle) cm.cm_fd n),
            count_open-take k handle cm.cm_fd free b,
          ))
]

take_fd-full :
    (handle : ℕ) (cm : Cm)
    → (take_fd handle (free_fd cm.cm_fd) cm).0 ≡ refused cm_fd_not_found
    → count_open cm.cm_fd ≡ length cm.cm_fd
unfolding take_fd
take_fd-full handle cm e = elim (Option-cases (free_fd cm.cm_fd)) [
  | inl f ↦ free_fd-full cm.cm_fd f
  | inr (k, f) ↦ cc (rw (f, take_fd) at e)
]

-- If iotx_cm_open returns a descriptor, it was free, calls on it now reach the new connection, all
-- other descriptors are as before, and one more is open. It finds no descriptor only if all three are
-- open.
pub cm_open-IsOpened :
    (mutex : Bool) (handle : ℕ) (cm : Cm)
    → length cm.cm_fd ≡ 3
    → ((fd : ℕ)
        → (cm_open mutex (some handle) cm).0 ≡ opened fd
        → (slot fd cm.cm_fd ≡ none)
          × (cm_call (pos fd) (cm_open mutex (some handle) cm).1 ≡ some handle)
          × ((other : ℕ)
              → other ≢ fd
              → slot other (cm_open mutex (some handle) cm).1.cm_fd ≡ slot other cm.cm_fd)
          × (count_open (cm_open mutex (some handle) cm).1.cm_fd ≡ count_open cm.cm_fd + 1))
      × ((cm_open mutex (some handle) cm).0 ≡ refused cm_fd_not_found → count_open cm.cm_fd ≡ 3)
unfolding cm_open get_fd
cm_open-IsOpened mutex handle cm size =
    let P = λ (r : Opened × Cm).
      IsOpened handle cm r × (r.0 ≡ refused cm_fd_not_found → count_open cm.cm_fd ≡ 3) in
    if_elim P (not cm.fd_lock && not mutex) (λ a. ((λ fd h. cc), λ h. cc))
      (λ a. (
        take_fd-IsOpened handle (record cm { fd_lock = true }) size refl,
        λ h. take_fd-full handle (record cm { fd_lock = true }) h ∙ size,
      ))

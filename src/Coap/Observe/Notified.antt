-- ===== src/Coap/Observe/Notified.antt =====
-- What a notification tells the observers of a resource, and how they are counted on.
use nu_maker_mbed_aliyun_io.Base.{
  ℕ, suc, ◌≤◌, ◌<◌, ◌^◌, ◌≡◌, refl, ap, arith, true, ◌==◌, if◌then◌else◌, Option, none, some, List,
  [], ◌∷◌, length, take, Bool-cases, inl, inr, get_elem?,
}
use nu_maker_mbed_aliyun_io.Coap.Message.{Message, uint_option_get, max_token_len, success}
use nu_maker_mbed_aliyun_io.Coap.Message.Options.{number_all}
use nu_maker_mbed_aliyun_io.Coap.Resource.{Resource, by_path_get, answers_path}
use nu_maker_mbed_aliyun_io.Coap.Observe.{Observer, option_observe, by_path_place}
use nu_maker_mbed_aliyun_io.Coap.Observe.Send.{Outside, code_205}
use nu_maker_mbed_aliyun_io.Coap.Observe.Packet.{packet_of}
use nu_maker_mbed_aliyun_io.Coap.Observe.Notify.{
  Notice, Context, Sent, bump_number, notify_observer, notify_from,
}
use mathlib.Core.Option

-- An observer as CoAPObsServer_add makes it of a request with a field of two bits and a token that fits.
pub record IsObserver (o : Observer) : Type 0 where
  pub type_bits : o.msg_type < 4
  pub tokenlen_max : o.tokenlen ≤ max_token_len
  pub token_array : length o.token ≡ max_token_len
  pub number_word : o.observer_sequence_num < 2 ^ 32

-- The observers of a resource, in the list's order.
unfoldable pub watchers : ℕ → List Observer → List Observer
watchers place [] = []
watchers place (o ∷ os) =
    if o.resource_of_interest == place then o ∷ watchers place os else watchers place os

-- What is sent shows the peer the token that it observes with, its next number and the payload, and is
-- handed to the network as CoAPSerialize_Message writes it.
pub record Tells (n : Notice) (o : Observer) (s : Sent) : Type 0 where
  pub remote : s.remote ≡ o.remote
  pub type : s.message.header.type ≡ o.msg_type
  pub code : s.message.header.code ≡ code_205
  pub token : take s.message.header.tokenlen s.message.token ≡ take o.tokenlen o.token
  pub number :
      uint_option_get (number_all 0 s.message.options) option_observe 0
      ≡ (success, o.observer_sequence_num)
  pub payload : s.message.payload ≡ n.payload
  pub payloadlen : s.message.payloadlen ≡ n.payloadlen
  pub handed : s.packet ≡ some (packet_of s.message)

-- One message for each observer, in the same order.
abbrev pub AllTell : Notice → List Observer → List Sent → Type 0
AllTell n [] [] = Unit
AllTell n [] (s ∷ ss) = ⊥
AllTell n (o ∷ os) [] = ⊥
AllTell n (o ∷ os) (s ∷ ss) = Tells n o s × AllTell n os ss

-- A payload pointer is given, with at most 1200 bytes, and no encryption.
pub record IsPlain (n : Notice) : Type 0 where
  pub text : List ℕ
  pub given : n.payload ≡ some text
  pub plain : n.encrypt ≡ none
  pub small : n.payloadlen ≤ 1200

-- The blocks of the options and the send buffer are allocated.
pub record IsAllocated (w : Outside) : Type 0 where
  pub options : (optnum : ℕ) → w.alloc_option optnum ≡ true
  pub buffer : w.alloc ≡ true

pub bump_number-IsObserver : (o : Observer) → IsObserver o → IsObserver (bump_number o)
bump_number-IsObserver o v = record {
  type_bits = v.type_bits;
  tokenlen_max = v.tokenlen_max;
  token_array = v.token_array;
  number_word = omega arith;
}

-- The observers of the resource with the next number, and the others as they are.
unfoldable pub numbered_on : ℕ → List Observer → List Observer
numbered_on place [] = []
numbered_on place (o ∷ os) =
    (if o.resource_of_interest == place then bump_number o else o) ∷ numbered_on place os

pub notify_from-observers :
    (w : ℕ → Outside) (memory : Message) (n : Notice) (place maxage : ℕ) (os : List Observer)
    (c : Context) (ret : ℕ)
    → (notify_from w memory n place maxage os c ret).0 ≡ numbered_on place os
unfolding notify_from numbered_on
notify_from-observers w memory n place maxage [] c ret = refl
notify_from-observers w memory n place maxage (o ∷ os) c ret =
    let (c', ret', out) = notify_observer (w 0) memory n maxage o c in
    elim (Bool-cases (o.resource_of_interest == place)) [
      | inl hit ↦ rw hit (
          ap (◌∷◌ (bump_number o))
            (notify_from-observers (λ k. w (suc k)) memory n place maxage os c' ret'))
      | inr miss ↦
          rw miss
            (ap (◌∷◌ o) (notify_from-observers (λ k. w (suc k)) memory n place maxage os c ret))
    ]

-- The place of the node that is found under a path.
pub by_path_place-get :
    (md5 : List ℕ → List ℕ) (rs : List Resource) (path : List ℕ) (r : Resource)
    → by_path_get md5 rs path ≡ some r
    → (place : ℕ) × (by_path_place md5 rs path ≡ some place) × (get_elem? rs place ≡ some r)
unfolding by_path_place by_path_get
by_path_place-get md5 [] path r e = absurd (ground (arith, e))
by_path_place-get md5 (x ∷ rs) path r e = elim (Bool-cases (answers_path md5 path x)) [
  | inl hit ↦ (0, rw hit refl, ground (arith, e, hit))
  | inr miss ↦
      let (place, f, g) = by_path_place-get md5 rs path r (ground (arith, e, miss)) in
      (suc place, rw (miss, f) refl, g)
]

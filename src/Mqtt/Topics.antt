-- ===== src/Mqtt/Topics.antt =====
-- The maps of stations and of subscriptions.
use mathlib.Core.Bool.{false≢true}
use meteodata_server.Base.{
  ℕ, ◌≡◌, ◌∙◌, refl, sym, ap, ap₂, true, false, List, [], ◌∷◌, Bytes, Option, none, some, ◌==◌,
  if◌then◌else◌, Bool-cases, Option-cases, inl, inr, arith, ==_iff,
}
use meteodata_server.Mqtt.{
  MqttSubscriber, Map, Station, text_ltb, find_topic, insert, emplace, assign, subscribe_all,
  subscribe_to,
}
use meteodata_server.Base.Text.{text_eq, text_eq_refl, text_eq→≡}

abbrev pub or_else {ℓ} : {A : Type ℓ} → Option A → Option A → Option A
or_else none o = o
or_else (some a) o = some a

pub or_else-none {ℓ} : {A : Type ℓ} (o : Option A) → or_else o none ≡ o
or_else-none none = refl
or_else-none (some a) = refl

pub or_else_assoc {ℓ} :
    {A : Type ℓ} (o p q : Option A) → or_else (or_else o p) q ≡ or_else o (or_else p q)
or_else_assoc none p q = refl
or_else_assoc (some a) p q = refl

keys_apart : (t k key : Bytes) → text_eq k key ≡ false → text_eq t key ≡ true → text_eq t k ≡ false
keys_apart t k key apart h = elim (Bool-cases (text_eq t k)) [
  | inl e ↦ absurd (
      false≢true (
        sym apart ∙ ap₂ text_eq (sym (text_eq→≡ t k e)) (sym (text_eq→≡ t key h)) ∙ text_eq_refl t))
  | inr e ↦ e
]

module _ {ℓ} {A : Type ℓ} where
  find_apart :
      (key : Bytes) (k : Bytes) (b : A) (found : Option A)
      → (if text_eq k key then some b else found) ≡ none
      → (text_eq k key ≡ false) × (found ≡ none)
  find_apart key k b found h = ground arith

  find_topic-insert :
      (t k : Bytes) (a : A) (m : Map A)
      → find_topic k m ≡ none
      → find_topic t (insert k a m) ≡ (if text_eq t k then some a else find_topic t m)
  find_topic-insert t k a [] h = refl
  find_topic-insert t k a ((key, b) ∷ rest) h =
      let (apart, absent) = find_apart key k b (find_topic k rest) h in
      elim (Bool-cases (text_ltb k key)) [
        | inl before ↦ rw before refl
        | inr after ↦
            rw (after, find_topic-insert t k a rest absent)
              (elim (Bool-cases (text_eq t key)) [
                | inl here ↦ rw (here, keys_apart t k key apart here) refl
                | inr there ↦ rw there refl
              ])
      ]

  pub find_topic-emplace :
      (t k : Bytes) (a : A) (m : Map A)
      → find_topic t (emplace k a m)
        ≡ or_else (find_topic t m) (if text_eq t k then some a else none)
  find_topic-emplace t k a m = elim (Option-cases (find_topic k m)) [
    | inl absent ↦
        ap (λ o. find_topic t (elim o [ none ↦ insert k a m | some b ↦ m ])) absent
        ∙ find_topic-insert t k a m absent
        ∙ elim (Bool-cases (text_eq t k)) [
          | inl same ↦ rw (same, ap (λ x. find_topic x m) (text_eq→≡ t k same) ∙ absent) refl
          | inr differs ↦ rw differs (sym (or_else-none (find_topic t m)))
        ]
    | inr (b, present) ↦
        ap (λ o. find_topic t (elim o [ none ↦ insert k a m | some b ↦ m ])) present
        ∙ elim (Bool-cases (text_eq t k)) [
          | inl same ↦ rw (ap (λ x. find_topic x m) (text_eq→≡ t k same) ∙ present) refl
          | inr differs ↦ rw differs (sym (or_else-none (find_topic t m)))
        ]
  ]

abbrev pub find_id : ℕ → List (ℕ × Bytes) → Option Bytes
find_id id [] = none
find_id id ((key, topic) ∷ rest) =
    let found = find_id id rest in if key == id then some topic else found

find_id-assign :
    (id other : ℕ) (topic : Bytes) (m : List (ℕ × Bytes))
    → find_id id (assign other topic m) ≡ (if other == id then some topic else find_id id m)
find_id-assign id other topic [] = refl
find_id-assign id other topic ((key, t) ∷ rest) = ground (arith, find_id-assign id other topic rest)

-- A topic once it is subscribed to.
abbrev pub if_found {ℓ} : {A : Type ℓ} → Option A → Bytes → Option Bytes → Option Bytes
if_found none topic before = before
if_found (some a) topic before = some topic

if_found-same {ℓ} :
    {A : Type ℓ} (o : Option A) (topic : Bytes) → if_found o topic (some topic) ≡ some topic
if_found-same none topic = refl
if_found-same (some a) topic = refl

==_refl : (n : ℕ) → (n == n) ≡ true
==_refl n = ground arith

module _ (subscribe : Bytes → ℕ) (topic : Bytes)
    (own : (other : Bytes) → subscribe topic ≡ subscribe other → topic ≡ other) where
  others_id : (key : Bytes) → text_eq topic key ≡ false → (subscribe key == subscribe topic) ≡ false
  others_id key differs = elim (Bool-cases (subscribe key == subscribe topic)) [
    | inl same ↦ absurd (
        false≢true (
          sym differs
          ∙ ap (text_eq topic)
              (sym (own key (sym ((==_iff (subscribe key) (subscribe topic)).0 same))))
          ∙ text_eq_refl topic))
    | inr e ↦ e
  ]

  pub subscribe_all_lem :
      (m : Map Station) (s : MqttSubscriber)
      → find_id (subscribe topic) (subscribe_all subscribe m s).subscriptions
        ≡ if_found (find_topic topic m) topic (find_id (subscribe topic) s.subscriptions)
  unfolding subscribe_all
  subscribe_all_lem [] s = refl
  subscribe_all_lem ((key, station) ∷ rest) s =
      subscribe_all_lem rest (subscribe_to subscribe key s)
      ∙ ap (if_found (find_topic topic rest) topic)
          (find_id-assign (subscribe topic) (subscribe key) key s.subscriptions)
      ∙ elim (Bool-cases (text_eq topic key)) [
        | inl same ↦
            rw (same, sym (text_eq→≡ topic key same), ==_refl (subscribe topic))
              (if_found-same (find_topic topic rest) topic)
        | inr differs ↦ rw (differs, others_id key differs) refl
      ]

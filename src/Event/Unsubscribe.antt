-- ===== src/Event/Unsubscribe.antt =====
-- Who is subscribed after each operation.
use mathlib.Core.Bool.{false≢true}
use meteodata_server.Base.{
  sym, ◌∙◌, ℕ, ◌≡◌, refl, Bool, true, false, not, ◌&&◌, arith, List, [], ◌∷◌, ◌++◌, ◌==◌,
  if◌then◌else◌, Bool-cases, inl, inr,
}
use meteodata_server.Event.{
  Key, same_key, Subscriptions, subscribe, subscribers_of, erase_matching, unsubscribe,
  unsubscribe_from_all,
}

same_key_left : (k l m : Key) → same_key k l ≡ true → same_key k m ≡ same_key l m
same_key_left k l m h = ground arith

same_key_apart : (k l m : Key) → same_key k l ≡ false → same_key k m ≡ true → same_key l m ≡ false
same_key_apart k l m h g = ground arith

-- A subscription adds the subscriber at the end of those of its key, and leaves the other keys alone.
pub subscribers_of-subscribe :
    (s : ℕ) (key other : Key) (subscriptions : Subscriptions)
    → (same_key key other ≡ true
        → subscribers_of other (subscribe s key subscriptions)
          ≡ subscribers_of other subscriptions ++ (s ∷ []))
      × (same_key key other ≡ false
          → subscribers_of other (subscribe s key subscriptions)
            ≡ subscribers_of other subscriptions)
unfolding subscribe subscribers_of
subscribers_of-subscribe s key other [] = ((λ h. rw h), λ h. rw h)
subscribers_of-subscribe s key other ((k, subs) ∷ rest) =
    let (one, two) = subscribers_of-subscribe s key other rest in
    elim (Bool-cases (same_key k key)) [
      | inl same ↦ rw same (
        (λ h. rw (same_key_left k key other same ∙ h) refl),
        (λ h. rw (same_key_left k key other same ∙ h) refl),
      )
      | inr differs ↦ rw differs (elim (Bool-cases (same_key k other)) [
        | inl here ↦ rw here (
          (λ h. absurd (false≢true (sym (same_key_apart k key other differs here) ∙ h))),
          (λ h. refl),
        )
        | inr there ↦ rw there (one, two)
      ])
    ]

module _ (alive : ℕ → Bool) (s : ℕ) where
  -- The live subscribers but one.
  abbrev pub others : List ℕ → List ℕ
  others [] = []
  others (x ∷ xs) = let rest = others xs in if alive x && not (x == s) then x ∷ rest else rest

  erase_matching-others : (subs : List ℕ) → erase_matching alive s subs ≡ others subs
  unfolding erase_matching
  erase_matching-others [] = refl
  erase_matching-others (x ∷ xs) = rw (erase_matching-others xs) (ground arith)

  -- After a subscriber is unsubscribed from everything, the subscribers of every key are those of
  -- before that are alive, without it, in the same order.
  pub subscribers_of-unsubscribe_from_all :
      (key : Key) (subscriptions : Subscriptions)
      → subscribers_of key (unsubscribe_from_all alive s subscriptions)
        ≡ others (subscribers_of key subscriptions)
  unfolding unsubscribe_from_all subscribers_of
  subscribers_of-unsubscribe_from_all key [] = refl
  subscribers_of-unsubscribe_from_all key ((k, subs) ∷ rest) = elim (Bool-cases (same_key k key)) [
    | inl same ↦ rw same (erase_matching-others subs)
    | inr differs ↦ rw differs (subscribers_of-unsubscribe_from_all key rest)
  ]

  -- After a subscriber is unsubscribed from a key, the subscribers of that key are those of before
  -- that are alive, without it, in the same order, and those of every other key are untouched.
  pub subscribers_of-unsubscribe :
      (key other : Key) (subscriptions : Subscriptions)
      → (same_key key other ≡ true
          → subscribers_of other (unsubscribe alive s key subscriptions)
            ≡ others (subscribers_of other subscriptions))
        × (same_key key other ≡ false
            → subscribers_of other (unsubscribe alive s key subscriptions)
              ≡ subscribers_of other subscriptions)
  unfolding unsubscribe subscribers_of
  subscribers_of-unsubscribe key other [] = ((λ h. refl), λ h. refl)
  subscribers_of-unsubscribe key other ((k, subs) ∷ rest) =
      let (one, two) = subscribers_of-unsubscribe key other rest in
      elim (Bool-cases (same_key k key)) [
        | inl same ↦ rw same (
          (λ h. rw (same_key_left k key other same ∙ h) (erase_matching-others subs)),
          (λ h. rw (same_key_left k key other same ∙ h) refl),
        )
        | inr differs ↦ rw differs (elim (Bool-cases (same_key k other)) [
          | inl here ↦ rw here (
            (λ h. absurd (false≢true (sym (same_key_apart k key other differs here) ∙ h))),
            (λ h. refl),
          )
          | inr there ↦ rw there (one, two)
        ])
      ]

-- ===== src/Event/Publish.antt =====
-- Which subscribers an event reaches.
use meteodata_server.Base.{
  ℕ, ◌%◌, ◌≡◌, refl, Bool, arith, List, [], ◌∷◌, none, some, length, if◌then◌else◌, Bool-cases, inl,
  inr,
}
use meteodata_server.Event.{Key, same_key, Subscriptions, subscribers_of, dispatch_all, publish}

-- The first, the third, the fifth and so on.
abbrev pub every_other : List ℕ → List ℕ
every_other [] = []
every_other (s ∷ []) = s ∷ []
every_other (s ∷ t ∷ rest) = s ∷ every_other rest

module _ (alive : ℕ → Bool) where
  abbrev pub live : List ℕ → List ℕ
  live [] = []
  live (s ∷ rest) = let others = live rest in if alive s then s ∷ others else others

  dispatch_all_odd : (subs : List ℕ) → length subs % 2 ≡ 1 → dispatch_all alive subs ≡ none
  unfolding dispatch_all
  dispatch_all_odd [] h = absurd (omega arith)
  dispatch_all_odd (s ∷ []) h = refl
  dispatch_all_odd (s ∷ t ∷ rest) h = rw (dispatch_all_odd rest (omega arith))

  dispatch_all_even :
      (subs : List ℕ)
      → length subs % 2 ≡ 0
      → (kept : List ℕ) × (dispatch_all alive subs ≡ some (live (every_other subs), kept))
  unfolding dispatch_all
  dispatch_all_even [] h = ([], refl)
  dispatch_all_even (s ∷ []) h = absurd (omega arith)
  dispatch_all_even (s ∷ t ∷ rest) h =
      let (kept, e) = dispatch_all_even rest (omega arith) in
      elim (Bool-cases (alive s)) [
        | inl a ↦ (s ∷ t ∷ kept, rw (e, a))
        | inr a ↦ (t ∷ kept, rw (e, a))
      ]

  -- Publishing an event reaches every other one of the subscribers of its key, those that are still
  -- alive among the first, the third and so on, when they are even in number; when they are odd in
  -- number, a single one included, the iterator is incremented past the end of the vector.
  pub publish-every_other :
      (key : Key) (subscriptions : Subscriptions)
      → let subs = subscribers_of key subscriptions in
        (length subs % 2 ≡ 1 → publish alive key subscriptions ≡ none)
        × (length subs % 2 ≡ 0
            → (left : Subscriptions) × (publish alive key subscriptions
                ≡ some (live (every_other subs), left)))
  unfolding publish subscribers_of
  publish-every_other key [] = ((λ h. absurd (omega arith)), λ h. ([], refl))
  publish-every_other key ((k, subs) ∷ rest) = elim (Bool-cases (same_key k key)) [
    | inl same ↦ rw same (
      (λ h. rw (dispatch_all_odd subs h)),
      (λ h. let (kept, e) = dispatch_all_even subs h in ((k, kept) ∷ rest, rw e)),
    )
    | inr differs ↦ rw differs (
        let (odd, even) = publish-every_other key rest in
        ((λ h. rw (odd h)), (λ h. let (left, e) = even h in ((k, subs) ∷ left, rw e))))
  ]

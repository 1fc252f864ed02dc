-- ===== src/Event.antt =====
-- The event manager (src/event/event_manager.cpp): the subscribers of each type of event, and how an
-- event is handed to them. A subscriber is known by the address of its object; `alive` says which
-- of the weak pointers still lock.
pub mod Publish
pub mod Unsubscribe
use meteodata_server.Base.{
  ℕ, Bool, true, ◌&&◌, List, [], ◌∷◌, ◌++◌, Option, none, some, ◌==◌, if◌then◌else◌,
}

-- What subscriptions are looked up by: the type of the event, and for some the station.
pub record Key : Type 0 where
  pub event_type : ℕ
  pub station : ℕ

abbrev pub same_key : Key → Key → Bool
same_key k l = k.event_type == l.event_type && k.station == l.station

-- std::map<..., std::vector<std::weak_ptr<Subscriber>>>: the vector of each key that has one.
abbrev pub Subscriptions : Type 0
Subscriptions = List (Key × List ℕ)

-- `_subscriptions[type].push_back(subscriber)`
unfoldable pub subscribe : ℕ → Key → Subscriptions → Subscriptions
subscribe subscriber key [] = (key, subscriber ∷ []) ∷ []
subscribe subscriber key ((k, subscribers) ∷ rest) =
    let others = subscribe subscriber key rest in
    if same_key k key
    then (k, subscribers ++ (subscriber ∷ [])) ∷ rest
    else (k, subscribers) ∷ others

-- The subscribers under a key, none when the key is not there.
unfoldable pub subscribers_of : Key → Subscriptions → List ℕ
subscribers_of key [] = []
subscribers_of key ((k, subscribers) ∷ rest) =
    let others = subscribers_of key rest in if same_key k key then subscribers else others

module _ (alive : ℕ → Bool) where
  -- matchingOrAbsentSubscriber
  abbrev pub matching_or_absent : ℕ → ℕ → Bool
  matching_or_absent subscriber s = if alive s then s == subscriber else true

  -- `subscribers.erase(std::remove_if(...), subscribers.end())`
  unfoldable pub erase_matching : ℕ → List ℕ → List ℕ
  erase_matching subscriber [] = []
  erase_matching subscriber (s ∷ rest) =
      let others = erase_matching subscriber rest in
      if matching_or_absent subscriber s then others else s ∷ others

  -- unsubscribe
  unfoldable pub unsubscribe : ℕ → Key → Subscriptions → Subscriptions
  unsubscribe subscriber key [] = []
  unsubscribe subscriber key ((k, subscribers) ∷ rest) =
      let others = unsubscribe subscriber key rest in
      if same_key k key
      then (k, erase_matching subscriber subscribers) ∷ rest
      else (k, subscribers) ∷ others

  -- unsubscribeFromAll, for each of the two maps
  unfoldable pub unsubscribe_from_all : ℕ → Subscriptions → Subscriptions
  unsubscribe_from_all subscriber [] = []
  unsubscribe_from_all subscriber ((k, subscribers) ∷ rest) =
      (k, erase_matching subscriber subscribers) ∷ unsubscribe_from_all subscriber rest

  -- The loop of `publish` over a vector: what it dispatches the event to, and the vector it leaves.
  -- The iterator is incremented in the body, or moved by `erase`, and once more by the loop; none
  -- is an iterator incremented past the end, which is undefined.
  unfoldable pub dispatch_all : List ℕ → Option (List ℕ × List ℕ)
  dispatch_all [] = some ([], [])
  dispatch_all (s ∷ []) = none
  dispatch_all (s ∷ skipped ∷ rest) = elim (dispatch_all rest) [
    | none ↦ none
    | some (dispatched, kept) ↦
        if alive s
        then some (s ∷ dispatched, s ∷ skipped ∷ kept)
        else some (dispatched, skipped ∷ kept)
  ]

  -- publish: what the event is dispatched to, and the subscriptions that are left.
  unfoldable pub publish : Key → Subscriptions → Option (List ℕ × Subscriptions)
  publish key [] = some ([], [])
  publish key ((k, subscribers) ∷ rest) =
      let others = publish key rest in
      if same_key k key
      then elim (dispatch_all subscribers) [
        | none ↦ none
        | some (dispatched, kept) ↦ some (dispatched, (k, kept) ∷ rest)
      ]
      else elim others [
        | none ↦ none
        | some (dispatched, left) ↦ some (dispatched, (k, subscribers) ∷ left)
      ]

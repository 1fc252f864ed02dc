-- ===== src/Mqtt/Details.antt =====
-- The details of two subscriptions are compared by their values.
use meteodata_server.Base.{
  ℕ, ◌≡◌, ◌↔◌, refl, ap₂, Bool, true, false, not, ◌&&◌, [], ◌∷◌, Bytes, ltb, arith, if◌then◌else◌,
}
use meteodata_server.Base.Text.{text_eq, text_eq_refl}
use meteodata_server.Base.Int.{ℤ, ltb_ℤ, eq_of_parts}
use meteodata_server.Mqtt.{SubscriptionDetails, text_ltb, int_eq, details_ltb, details_eq}

text_ltb_irrefl : (a : Bytes) → text_ltb a a ≡ false
text_ltb_irrefl [] = refl
text_ltb_irrefl (b ∷ bs) = ground (arith, text_ltb_irrefl bs)

tests_lem :
    (a b : ℕ) (first second : Bool)
    → (if ltb a b then true else if ltb b a then false else first) ≡ false
    → (if ltb b a then true else if ltb a b then false else second) ≡ false
    → (a ≡ b) × (first ≡ false) × (second ≡ false)
tests_lem a b first second h k = ground arith

text_antisym : (a b : Bytes) → text_ltb a b ≡ false → text_ltb b a ≡ false → a ≡ b
text_antisym [] [] h k = refl
text_antisym [] (b ∷ bs) h k = ground arith
text_antisym (a ∷ more) [] h k = ground arith
text_antisym (a ∷ more) (b ∷ bs) h k =
    let (head, first, second) = tests_lem a b (text_ltb more bs) (text_ltb bs more) h k in
    ap₂ ◌∷◌ head (text_antisym more bs first second)

int_eq_refl : (a : ℤ) → int_eq a a ≡ true
int_eq_refl a = ground arith

text_total : (a b : Bytes) → text_ltb a b ≡ false → text_ltb b a ≡ false → text_eq a b ≡ true
text_total a b h k = rw (text_antisym a b h k) (text_eq_refl b)

-- Two comparisons that both fail: neither is decided, and their rests fail.
undecided :
    (less greater rest other : Bool)
    → not (if less then true else rest) && not (if greater then true else other) ≡ true
    → (less ≡ false) × (greater ≡ false) × (not rest && not other ≡ true)
undecided less greater rest other h = ground arith

passed :
    (eq eq' rest other : Bool)
    → eq ≡ true
    → eq' ≡ true
    → not (if eq then rest else false) && not (if eq' then other else false) ≡ true
    → not rest && not other ≡ true
passed eq eq' rest other e e' h = ground arith

text_level :
    (a b : Bytes) (rest other : Bool)
    → not (if text_ltb a b then true else if text_eq a b then rest else false)
        && not (if text_ltb b a then true else if text_eq b a then other else false)
      ≡ true
    → (a ≡ b) × (not rest && not other ≡ true)
text_level a b rest other h =
    let (less, greater, more) =
      undecided (text_ltb a b) (text_ltb b a) (if text_eq a b then rest else false)
        (if text_eq b a then other else false) h in
    (
      text_antisym a b less greater,
      passed (text_eq a b) (text_eq b a) rest other (text_total a b less greater)
          (text_total b a greater less) more,
    )

int_level :
    (a b : ℤ) (rest other : Bool)
    → not (if ltb_ℤ a b then true else if int_eq a b then rest else false)
        && not (if ltb_ℤ b a then true else if int_eq b a then other else false)
      ≡ true
    → (a ≡ b) × (not rest && not other ≡ true)
int_level a b rest other h =
    let (less, greater, more) =
      undecided (ltb_ℤ a b) (ltb_ℤ b a) (if int_eq a b then rest else false)
        (if int_eq b a then other else false) h in
    (
      eq_of_parts a b (ground arith),
      passed (int_eq a b) (int_eq b a) rest other (ground arith) (ground arith) more,
    )

neither : (rest other : Bool) → not rest && not other ≡ true → (rest ≡ false) × (other ≡ false)
neither rest other h = ground arith

details_eq→≡ : (s1 s2 : SubscriptionDetails) → details_eq s1 s2 ≡ true → s1 ≡ s2
unfolding details_eq details_ltb
details_eq→≡ s1 s2 h =
    let (host, after_host) = text_level s1.host s2.host _ _ h in
    let (port, after_port) = int_level s1.port s2.port _ _ after_host in
    let (user, after_user) = text_level s1.user s2.user _ _ after_port in
    let (less, greater) = neither _ _ after_user in
    λ i. record {
      host = host i;
      port = port i;
      user = user i;
      password = text_antisym s1.password s2.password less greater i;
    }

ltb_ℤ_irrefl : (a : ℤ) → ltb_ℤ a a ≡ false
ltb_ℤ_irrefl a = ground arith

-- operator== says whether two details are the same: the same host, port, user and password.
pub details_eq_iff : (s1 s2 : SubscriptionDetails) → (details_eq s1 s2 ≡ true) ↔ (s1 ≡ s2)
unfolding details_eq details_ltb
details_eq_iff s1 s2 = (
  details_eq→≡ s1 s2,
  (λ e.
      rw
        (
          e,
          text_ltb_irrefl s2.host,
          text_eq_refl s2.host,
          ltb_ℤ_irrefl s2.port,
          int_eq_refl s2.port,
          text_ltb_irrefl s2.user,
          text_eq_refl s2.user,
          text_ltb_irrefl s2.password,
        )
        refl),
)

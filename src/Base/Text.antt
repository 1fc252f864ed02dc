-- ===== src/Base/Text.antt =====
-- Equality of std::string, as the lists of their bytes.
use meteodata_server.Base.{ℕ, ◌≡◌, refl, ap₂, Bool, true, false, ◌&&◌, [], ◌∷◌, Bytes, ◌==◌, arith}

abbrev pub text_eq : Bytes → Bytes → Bool
text_eq [] [] = true
text_eq [] (b ∷ bs) = false
text_eq (a ∷ more) [] = false
text_eq (a ∷ more) (b ∷ bs) = let rest = text_eq more bs in a == b && rest

pub text_eq_refl : (a : Bytes) → text_eq a a ≡ true
text_eq_refl [] = refl
text_eq_refl (b ∷ bs) = ground (arith, text_eq_refl bs)

heads_lem : (a b : ℕ) (rest : Bool) → (a == b && rest) ≡ true → (a ≡ b) × (rest ≡ true)
heads_lem a b rest h = ground arith

pub text_eq→≡ : (a b : Bytes) → text_eq a b ≡ true → a ≡ b
text_eq→≡ [] [] h = refl
text_eq→≡ [] (b ∷ bs) h = ground arith
text_eq→≡ (a ∷ more) [] h = ground arith
text_eq→≡ (a ∷ more) (b ∷ bs) h =
    let (head, more_eq) = heads_lem a b (text_eq more bs) h in
    ap₂ ◌∷◌ head (text_eq→≡ more bs more_eq)

-- ===== src/Synop/Termination.antt =====
-- The fuel of the loops is enough: every message is decoded to an end.
use meteodata_server.Base.{
  ℕ, zero, suc, ◌≤◌, arith, Bool, true, false, List, [], ◌∷◌, Option, none, some, ◌==◌,
  if◌then◌else◌, length,
}
use meteodata_server.Base.Int.{ℤ}
use meteodata_server.Synop.{
  Text, Outcome, ended, thrown, undefined, exhausted, ◌>>=◌, at, index, any_is, none_at, all_are,
  parse_sint, value, parse_int_until,
}
use meteodata_server.Synop.Message.{SynopMessage}
use meteodata_server.Synop.Groups.{parse_rain, rain_of, height_of}
use meteodata_server.Synop.Sunshine.{Progress, next, broke, evaporation, group_5}
use meteodata_server.Synop.Gusts.{timed_gust, group_9}
use meteodata_server.Synop.Section3.{cloud_base, group_3}

-- The call has not run out of fuel, and what it returns satisfies `P`.
pub data Fine {A : Type 0} (P : A → Type 0) : Outcome A → Type 0 where
  returns : (a : A) → P a → Fine P (ended a)
  throws : Fine P thrown
  strays : Fine P undefined

abbrev pub Any : {A : Type 0} → A → Type 0
Any a = Unit

abbrev pub Ends : {A : Type 0} → Outcome A → Type 0
Ends {A} = Fine {A = A} Any

pub Fine->>= :
    {A B : Type 0} (P : B → Type 0) (o : Outcome A) (f : A → Outcome B)
    → Ends o
    → ((a : A) → Fine P (f a))
    → Fine P (o >>= f)
Fine->>= P (ended a) f h k = k a
Fine->>= P thrown f h k = throws
Fine->>= P undefined f h k = strays
Fine->>= P exhausted f h k = elim h [ ]

pub Fine-if :
    {A : Type 0} (P : A → Type 0) (b : Bool) (x y : Outcome A)
    → Fine P x
    → Fine P y
    → Fine P (if b then x else y)
Fine-if P true x y h k = h
Fine-if P false x y h k = k

pub index-Ends : (s : Text) (i : ℕ) → Ends (index s i)
unfolding index
index-Ends [] zero = returns 0 tt
index-Ends [] (suc i) = strays
index-Ends (c ∷ s) zero = returns c tt
index-Ends (c ∷ s) (suc i) = index-Ends s i

pub at-Ends : (s : Text) (i : ℕ) → Ends (at s i)
unfolding at
at-Ends [] i = throws
at-Ends (c ∷ s) zero = returns c tt
at-Ends (c ∷ s) (suc i) = at-Ends s i

pub all_are-Ends : (s : Text) (l : List (ℕ × ℕ)) → Ends (all_are s l)
unfolding all_are
all_are-Ends s [] = returns true tt
all_are-Ends s ((i, a) ∷ l) =
    Fine->>= _ _ _ (index-Ends s i)
      (λ c. Fine-if _ (c == a) _ _ (all_are-Ends s l) (returns false tt))

pub none_at-Ends : (c : ℕ) (s : Text) (l : List ℕ) → Ends (none_at c s l)
unfolding none_at
none_at-Ends c s [] = returns true tt
none_at-Ends c s (i ∷ l) =
    Fine->>= _ _ _ (at-Ends s i)
      (λ d. Fine-if _ (d == c) _ _ (returns false tt) (none_at-Ends c s l))

pub any_is-Ends : (c : ℕ) (s : Text) (l : List ℕ) → Ends (any_is c s l)
unfolding any_is
any_is-Ends c s [] = returns false tt
any_is-Ends c s (i ∷ l) =
    Fine->>= _ _ _ (index-Ends s i)
      (λ d. Fine-if _ (d == c) _ _ (returns true tt) (any_is-Ends c s l))

pub parse_sint-Ends : (s : Text) (i : ℕ) → Ends (parse_sint s i)
unfolding parse_sint
parse_sint-Ends s i = Fine->>= _ _ _ (index-Ends s i) (λ c. returns _ tt)

pub value-Ends : (n : Option ℤ) → Ends (value n)
value-Ends none = throws
value-Ends (some n) = returns n tt

pub parse_rain-Ends : (s : Text) → Ends (parse_rain s)
unfolding parse_rain
parse_rain-Ends s = elim (parse_int_until s 1 3) as (λ r. Ends (rain_of s r)) [
  | none ↦ returns none tt
  | some rrr ↦ Fine->>= _ _ _ (index-Ends s 4) (λ t. returns _ tt)
]

pub ruleset ends = (
  Fine->>=, Fine-if, returns, throws, strays, index-Ends, at-Ends, all_are-Ends, none_at-Ends,
  any_is-Ends, parse_sint-Ends, value-Ends, parse_rain-Ends,
)

height_of-Ends : (n : ℤ) → Ends (height_of n)
unfolding height_of
height_of-Ends n = search ends depth 20

-- A group reads no group twice.
abbrev pub Shrinks : List Text → Progress → Type 0
Shrinks rest (next left m) = length left ≤ length rest
Shrinks rest (broke m) = Unit

pub stays : (rest : List Text) (m : SynopMessage) → Fine (Shrinks rest) (ended (next rest m))
stays rest m = returns _ (omega arith)

pub skips :
    (t : Text) (rest : List Text) (m : SynopMessage)
    → Fine (Shrinks (t ∷ rest)) (ended (next rest m))
skips t rest m = returns _ (omega arith)

pub skips_two :
    (t u : Text) (rest : List Text) (m : SynopMessage)
    → Fine (Shrinks (t ∷ u ∷ rest)) (ended (next rest m))
skips_two t u rest m = returns _ (omega arith)

pub breaks : (rest : List Text) (m : SynopMessage) → Fine (Shrinks rest) (ended (broke m))
breaks rest m = returns _ tt

pub ruleset shrinks = (ends, stays, skips, skips_two, breaks)

pub timed_gust-Shrinks :
    (s : Text) (rest : List Text) (m : SynopMessage) → Fine (Shrinks rest) (timed_gust s rest m)
unfolding timed_gust
timed_gust-Shrinks s [] m = search shrinks
timed_gust-Shrinks s (t ∷ []) m = search shrinks depth 9
timed_gust-Shrinks s (t ∷ u ∷ rest) m = search shrinks depth 9

evaporation-Ends : (n : Option ℤ) (s : Text) (m : SynopMessage) → Ends (evaporation n s m)
evaporation-Ends none s m = search ends
evaporation-Ends (some n) s m = search ends

cloud_base-Ends : (n : Option ℤ) (s : Text) (m : SynopMessage) → Ends (cloud_base n s m)
cloud_base-Ends none s m = search ends
cloud_base-Ends (some n) s m = search (ends, height_of-Ends) depth 9

group_5-Shrinks :
    (s : Text) (rest : List Text) (m : SynopMessage) → Fine (Shrinks rest) (group_5 s rest m)
unfolding group_5
group_5-Shrinks s [] m = search (shrinks, evaporation-Ends) depth 20 fits 5000
group_5-Shrinks s (t ∷ rest) m = search (shrinks, evaporation-Ends) depth 20 fits 5000

group_9-Shrinks :
    (s : Text) (rest : List Text) (m : SynopMessage) → Fine (Shrinks rest) (group_9 s rest m)
unfolding group_9
group_9-Shrinks s [] m = search shrinks depth 20 fits 5000
group_9-Shrinks s (t ∷ rest) m = search (shrinks, timed_gust-Shrinks) depth 20 fits 5000

pub group_3-Shrinks :
    (s : Text) (c : ℕ) (rest : List Text) (m : SynopMessage)
    → Fine (Shrinks rest) (group_3 s c rest m)
unfolding group_3
group_3-Shrinks s c rest m =
    search (shrinks, cloud_base-Ends, group_5-Shrinks, group_9-Shrinks) depth 20 fits 5000

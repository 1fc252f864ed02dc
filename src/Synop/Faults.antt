-- ===== src/Synop/Faults.antt =====
-- Where the decoder reads past the end of the groups.
use meteodata_server.Base.{
  ◌≡◌, ◌≢◌, ◌↔◌, refl, arith, Bool-cases, inl, inr, List, [], ◌∷◌, ◌==◌, All, length,
}
use meteodata_server.Synop.{Text, undefined}
use meteodata_server.Synop.Message.{SynopMessage}
use meteodata_server.Synop.Decoder.{skip_section_4, parse_section_4}

abbrev pub NotMark : Text → Type 0
NotMark s = length s ≢ 3

strays_if :
    (groups : List Text) (m : SynopMessage)
    → All NotMark groups
    → skip_section_4 groups m ≡ undefined
unfolding skip_section_4
strays_if [] m h = refl
strays_if (s ∷ rest) m (h, hs) = ground (arith, strays_if rest m hs)

strays_only_if :
    (groups : List Text) (m : SynopMessage)
    → skip_section_4 groups m ≡ undefined
    → All NotMark groups
unfolding skip_section_4
strays_only_if [] m e = tt
strays_only_if (s ∷ rest) m e = elim (Bool-cases (length s == 3)) [
  | inl three ↦ absurd (ground arith)
  | inr other ↦ ((λ three. ground arith), strays_only_if rest m (rw other at e))
]

-- Section 4 is read past the end of the message exactly when no group of three characters comes after its
-- mark, that is when no other section follows it.
pub parse_section_4_strays :
    (groups : List Text) (m : SynopMessage)
    → (parse_section_4 ((b'4' ∷ b'4' ∷ b'4' ∷ []) ∷ groups) m ≡ undefined) ↔ All NotMark groups
unfolding parse_section_4
parse_section_4_strays groups m = (strays_only_if groups m, strays_if groups m)

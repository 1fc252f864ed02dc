-- ===== src/Liveobjects/Thpllora/Rain.antt =====
-- The rain counted between two messages.
use meteodata_server.Base.{ℕ, ◌+◌, ◌-◌, ◌%◌, ◌≤◌, ◌<◌, ◌≡◌, ◌∙◌, inl, inr, arith, ◌⊎◌}
use meteodata_server.Base.Int.{pos}
use meteodata_server.Liveobjects.Thpllora.{rain_clicks}

lt_or_ge : (a b : ℕ) → (a < b) ⊎ (b ≤ a)
lt_or_ge a b = ground arith

rain_clicks-le : (t p : ℕ) → p ≤ t → rain_clicks t (pos p) ≡ t - p
unfolding rain_clicks
rain_clicks-le t p h = ground arith

rain_clicks-lt : (t p : ℕ) → t < p → rain_clicks t (pos p) ≡ (4294967295 - p + t) % 4294967296
unfolding rain_clicks
rain_clicks-lt t p h = ground arith

-- Between two messages, whose counter goes from `n` to `n + f` with fewer than 2^16 clicks and is kept
-- on 16 bits each time, the rain is exactly `f` clicks as long as the 16 bits have not
-- wrapped around; once they have, 2^32 - 2^16 - 1 clicks too many are counted.
pub rain_clicks_lem :
    (n f : ℕ)
    → f < 65536
    → (n % 65536 + f < 65536) × (rain_clicks ((n + f) % 65536) (pos (n % 65536)) ≡ f)
      ⊎ (65536 ≤ n % 65536 + f) × (rain_clicks ((n + f) % 65536) (pos (n % 65536)) ≡ f + 4294901759)
rain_clicks_lem n f h = elim (lt_or_ge (n % 65536 + f) 65536) [
  | inl below ↦ inl (below, rain_clicks-le _ _ (omega arith) ∙ omega arith)
  | inr above ↦ inr (above, rain_clicks-lt _ _ (omega arith) ∙ omega arith)
]

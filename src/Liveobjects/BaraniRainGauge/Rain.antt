-- ===== src/Liveobjects/BaraniRainGauge/Rain.antt =====
-- The difference of two values of a counter.
use meteodata_server.Base.{ℕ, ◌+◌, ◌%◌, ◌<◌, ◌≡◌, arith, ◌⊎◌}
use meteodata_server.Base.Int.{pos, ◌+ℤ◌, ◌-ℤ◌}
use meteodata_server.Liveobjects.BaraniRainGauge.{clicks_since}

-- `clicks_since` on two values of a 12-bit counter that are read right, which those of the messages are
-- not: exact when fewer than 4096 clicks and at least one lie between them, and 4096 when none does.
clicks_since_lem :
    (n f : ℕ)
    → f < 4096
    → (0 < f) × (clicks_since ((n + f) % 4096) (pos (n % 4096)) ≡ pos f)
      ⊎ (f ≡ 0) × (clicks_since ((n + f) % 4096) (pos (n % 4096)) ≡ pos 4096)
unfolding clicks_since ◌+ℤ◌ ◌-ℤ◌
clicks_since_lem n f h = ground arith

-- ===== src/Synop/Groups.antt =====
-- parseRain, and the tables of codes that are read from the characters of a group.
use meteodata_server.Base.{
  ℕ, ◌+◌, ◌-◌, ◌*◌, Bool, true, false, ◌&&◌, Option, none, some, leb, ◌==◌, if◌then◌else◌,
}
use meteodata_server.Base.Int.{ℤ, pos, ◌-ℤ◌, ◌*ℤ◌, ltb_ℤ}
use meteodata_server.Synop.{Text, Outcome, ended, ◌>>=◌, index, parse_int_until}
use meteodata_server.Synop.Message.{PrecipitationAmount, Range}

abbrev pub duration_of : ℕ → ℤ
duration_of c =
    if c == b'1'
    then pos 6
    else if c == b'2'
    then pos 12
    else if c == b'3'
    then pos 18
    else if c == b'4'
    then pos 24
    else if c == b'5'
    then pos 1
    else if c == b'6'
    then pos 2
    else if c == b'7'
    then pos 3
    else if c == b'8'
    then pos 9
    else if c == b'9'
    then pos 15
    else pos 0

abbrev pub amount_of : ℤ → ℤ → PrecipitationAmount
amount_of duration rrr =
    if ltb_ℤ (pos 990) rrr
    then record { amount = rrr -ℤ pos 990; trace = false; duration = duration }
    else if ltb_ℤ rrr (pos 990)
    then record { amount = rrr *ℤ pos 10; trace = false; duration = duration }
    else record { amount = pos 0; trace = true; duration = duration }

-- s[4] is read if there is an amount.
abbrev pub rain_of : Text → Option ℤ → Outcome (Option PrecipitationAmount)
rain_of s none = ended none
rain_of s (some rrr) = index s 4 >>= λ t. ended (some (amount_of (duration_of t) rrr))

unfoldable pub parse_rain : Text → Outcome (Option PrecipitationAmount)
parse_rain s = rain_of s (parse_int_until s 1 3)

abbrev from_to : ℕ → ℕ → Range
from_to a b = record {
  begin = some (pos a);
  end = some (pos b);
  begin_included = true;
  end_included = false;
}

-- h
abbrev pub h_of : ℕ → Option Range → Option Range
h_of c before =
    if c == b'0'
    then some (from_to 0 50)
    else if c == b'1'
    then some (from_to 50 100)
    else if c == b'2'
    then some (from_to 100 200)
    else if c == b'3'
    then some (from_to 200 300)
    else if c == b'4'
    then some (from_to 300 600)
    else if c == b'5'
    then some (from_to 600 1000)
    else if c == b'6'
    then some (from_to 1000 1500)
    else if c == b'7'
    then some (from_to 1500 2000)
    else if c == b'8'
    then some (from_to 2000 2500)
    else if c == b'9'
    then some (record (from_to 2500 0) { end = none })
    else before

abbrev between : ℕ → ℕ → ℕ → Bool
between a b n = leb a n && leb n b

-- VV, from the number that is made of its two characters.
unfoldable pub visibility_of : ℕ → Option Range → Option Range
visibility_of vv before =
    if vv == 0
    then some (record (from_to 0 100) { begin_included = false })
    else if between 1 50 vv
    then some (from_to (vv * 100) ((vv + 1) * 100))
    else if between 51 80 vv
    then some (from_to ((vv - 50) * 1000) ((vv + 1 - 50) * 1000))
    else if between 81 87 vv
    then some (from_to (30000 + (vv - 50) * 5000) (30000 + (vv + 1 - 50) * 5000))
    else if vv == 88
    then some (record (from_to 70000 70000) { end_included = true })
    else if vv == 89
    then some (record (from_to 70000 0) { end = none; begin_included = false })
    else if vv == 90
    then some (record (from_to 0 50) { begin_included = false })
    else if vv == 91
    then some (from_to 50 200)
    else if vv == 92
    then some (from_to 200 500)
    else if vv == 93
    then some (from_to 500 1000)
    else if vv == 94
    then some (from_to 1000 2000)
    else if vv == 95
    then some (from_to 2000 4000)
    else if vv == 96
    then some (from_to 4000 10000)
    else if vv == 97
    then some (from_to 10000 20000)
    else if vv == 98
    then some (from_to 20000 50000)
    else if vv == 99
    then some (record (from_to 50000 0) { end = none })
    else before

after_up_to : ℤ → ℤ → Range
after_up_to a b = record {
  begin = some a;
  end = some b;
  begin_included = false;
  end_included = true;
}

-- h_s h_s; a code above 99 leaves the height not initialised.
unfoldable pub height_of : ℤ → Outcome Range
unfolding after_up_to
height_of code =
    if ltb_ℤ code (pos 51)
    then ended (after_up_to (pos 30 *ℤ (code -ℤ pos 1)) (pos 30 *ℤ code))
    else if ltb_ℤ code (pos 81)
    then ended (after_up_to (pos 300 *ℤ (code -ℤ pos 51)) (pos 300 *ℤ (code -ℤ pos 50)))
    else if ltb_ℤ code (pos 89)
    then ended (after_up_to (pos 500 *ℤ (code -ℤ pos 61)) (pos 500 *ℤ (code -ℤ pos 60)))
    else if ltb_ℤ code (pos 90)
    then ended (record (from_to 21000 0) { end = none; begin_included = false })
    else if ltb_ℤ code (pos 91)
    then ended (record (from_to 0 50) { begin_included = false })
    else if ltb_ℤ code (pos 92)
    then ended (from_to 50 100)
    else if ltb_ℤ code (pos 93)
    then ended (from_to 100 200)
    else if ltb_ℤ code (pos 94)
    then ended (from_to 200 300)
    else if ltb_ℤ code (pos 95)
    then ended (from_to 300 600)
    else if ltb_ℤ code (pos 96)
    then ended (from_to 600 1000)
    else if ltb_ℤ code (pos 97)
    then ended (from_to 1000 1500)
    else if ltb_ℤ code (pos 98)
    then ended (from_to 1500 2000)
    else if ltb_ℤ code (pos 99)
    then ended (from_to 2000 2500)
    else if ltb_ℤ code (pos 100)
    then ended (record (from_to 2500 0) { end = none })
    else Outcome.undefined

-- ===== src/Availability/Hours.antt =====
-- Business hours (apps/api/src/voiceagent_api/store.py, `_business_hour_keys` and
-- `_parse_business_range`). Texts are read as their code points; only the ASCII digits and blanks
-- are modelled.
use real_voice_agent_free.Prelude.{
  ℕ, ◌+◌, ◌-◌, ◌*◌, String, Bool, true, false, ◌&&◌, ◌||◌, Option, none, some, List, [], ◌∷◌, ltb,
  leb, nat_eq, codes, if◌then◌else◌,
}

-- `datetime.weekday()` is 0 on a Monday.
unfoldable pub business_hour_keys : ℕ → List String
business_hour_keys weekday =
    (if nat_eq weekday 0
      then "mon"
      else if nat_eq weekday 1
      then "tue"
      else if nat_eq weekday 2
      then "wed"
      else if nat_eq weekday 3
      then "thu"
      else if nat_eq weekday 4
      then "fri"
      else if nat_eq weekday 5
      then "sat"
      else "sun")
    ∷ "daily"
    ∷ (if ltb weekday 5
        then "mon_fri" ∷ "weekdays" ∷ []
        else "sat_sun" ∷ "weekend" ∷ "weekends" ∷ [])

-- hours and minutes of the start and of the end
pub record Range : Type 0 where
  pub start_hour : ℕ
  pub start_minute : ℕ
  pub end_hour : ℕ
  pub end_minute : ℕ

infixl 5 ◌>>=◌
abbrev pub ◌>>=◌ : {A B : Type 0} → Option A → (A → Option B) → Option B
none >>= k = none
some a >>= k = k a

abbrev is_blank : ℕ → Bool
is_blank c = nat_eq c 32 || (leb 9 c && leb c 13) || (leb 28 c && leb c 31)

strip_left : List ℕ → List ℕ
strip_left [] = []
strip_left (c ∷ s) = elim (is_blank c) [ true ↦ strip_left s | false ↦ c ∷ s ]

strip_right : List ℕ → List ℕ
strip_right [] = []
strip_right (c ∷ s) = elim (strip_right s) [
  | [] ↦ if is_blank c then [] else c ∷ []
  | d ∷ rest ↦ c ∷ d ∷ rest
]

-- `str.strip`
unfoldable pub strip : List ℕ → List ℕ
unfolding strip_left strip_right
strip s = strip_right (strip_left s)

-- `s.split(sep, 1)`, where the separator occurs
unfoldable pub split_once : ℕ → List ℕ → Option (List ℕ × List ℕ)
split_once sep [] = none
split_once sep (c ∷ s) = elim (nat_eq c sep) [
  | true ↦ some ([], s)
  | false ↦ split_once sep s >>= λ parts. some (c ∷ parts.0, parts.1)
]

abbrev is_digit : ℕ → Bool
is_digit c = leb 48 c && leb c 57

-- Digits, with single underscores between them; `ready` tells that the last one was a digit.
digits : List ℕ → ℕ → Bool → Option ℕ
digits [] acc ready = if ready then some acc else none
digits (c ∷ s) acc ready = elim (is_digit c) [
  | true ↦ digits s (acc * 10 + (c - 48)) true
  | false ↦ elim (nat_eq c b'_' && ready) [ true ↦ digits s acc false | false ↦ none ]
]

-- A negative number is outside all bounds of a time, as if `int` had raised ValueError.
abbrev not_negative : Option ℕ → Option ℕ
not_negative none = none
not_negative (some n) = if nat_eq n 0 then some 0 else none

signed : List ℕ → Option ℕ
unfolding digits
signed [] = none
signed (c ∷ s) =
    if nat_eq c b'+'
    then digits s 0 false
    else if nat_eq c b'-'
    then not_negative (digits s 0 false)
    else digits (c ∷ s) 0 false

-- `int(s)`
unfoldable pub int : List ℕ → Option ℕ
unfolding signed
int s = signed (strip s)

-- `(int(part) for part in s.split(":", 1))`, of two parts
unfoldable pub time_of : List ℕ → Option (ℕ × ℕ)
time_of s = do
  parts ← split_once b':' s
  hour ← int parts.0
  minute ← int parts.1
  some (hour, minute)

abbrev pub in_bounds : Range → Bool
in_bounds r =
    ltb r.start_minute 60 && ltb r.end_minute 60 && ltb r.start_hour 24 && ltb r.end_hour 24

-- `(end_hour, end_minute) <= (start_hour, start_minute)`
abbrev pub ends_before : Range → Bool
ends_before r =
    ltb r.end_hour r.start_hour
    || (nat_eq r.end_hour r.start_hour && leb r.end_minute r.start_minute)

abbrev pub checked : Range → Option Range
checked r = if in_bounds r then (if ends_before r then none else some r) else none

unfoldable pub parse_business_range : String → Option Range
parse_business_range value = do
  halves ← split_once b'-' (codes value)
  start ← time_of (strip halves.0)
  end ← time_of (strip halves.1)
  checked (record {
    start_hour = start.0;
    start_minute = start.1;
    end_hour = end.0;
    end_minute = end.1;
  })

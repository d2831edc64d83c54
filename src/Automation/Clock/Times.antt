-- ===== src/Automation/Clock/Times.antt =====
-- The minutes that a text of the form HH:MM stands for.
use lux_mon.Base.{
  ℕ, ◌+◌, ◌/◌, ◌%◌, ◌<◌, ◌≡◌, refl, [], ◌∷◌, ◌++◌, Bool, true, false, Option, none, some, ◌==◌, ℤ,
  pos, negsuc, every_below, every_below-check, ==_iff, All, arith,
}
use lux_mon.Protocol.Frame.{Str}
use lux_mon.Engineering.{times}
use lux_mon.Automation.Clock.{
  parse_hhmm, split_once, strip, lstrip, reversed, int_of, signed, digits, add_ℤ,
}

-- The time of day HH:MM, of a number of minutes since midnight.
abbrev pub hhmm : ℕ → Str
hhmm n = (48 + n / 600) ∷ (48 + n / 60 % 10) ∷ 58 ∷ (48 + n % 60 / 10) ∷ (48 + n % 60 % 10) ∷ []

abbrev reads_as : ℕ → Option ℤ → Bool
reads_as n none = false
reads_as n (some (negsuc m)) = false
reads_as n (some (pos m)) = m == n

reads_as-some : (n : ℕ) (o : Option ℤ) → reads_as n o ≡ true → o ≡ some (pos n)
reads_as-some n none h = cc
reads_as-some n (some (negsuc m)) h = cc
reads_as-some n (some (pos m)) h = rw ((==_iff m n).0 h) refl

all_minutes : every_below (λ n. reads_as n (parse_hhmm (hhmm n))) 1440 ≡ true
unfolding every_below parse_hhmm split_once strip lstrip reversed int_of signed digits add_ℤ times
all_minutes = refl

-- The text HH:MM of every minute of the day is read back as its number of minutes since midnight.
pub parse_hhmm-hhmm : (n : ℕ) → n < 1440 → parse_hhmm (hhmm n) ≡ some (pos n)
parse_hhmm-hhmm n h =
    reads_as-some n (parse_hhmm (hhmm n))
      (every_below-check (λ n. reads_as n (parse_hhmm (hhmm n))) 1440 n h all_minutes)

-- A text splits at the first occurrence of a character.
pub split_once-append :
    (c : ℕ) (xs ys : Str)
    → All (λ x. (x == c) ≡ false) xs
    → split_once c (xs ++ c ∷ ys) ≡ some (xs, ys)
unfolding split_once
split_once-append c [] ys h = ground arith
split_once-append c (x ∷ xs) ys (new, h) = rw (new, split_once-append c xs ys h) refl

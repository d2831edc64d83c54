-- ===== src/Automation/Clock.antt =====
-- Times of day in the texts of collector/automation.py: `_parse_hhmm`, the `int` and `split` that it
-- uses, and the moment that `_now_in_tz` returns. Texts are ASCII.
pub mod Times
use lux_mon.Base.{
  ℕ, ◌+◌, ◌-◌, ◌*◌, List, [], ◌∷◌, Bool, true, false, ◌&&◌, ◌||◌, not, Option, none, some, leb, ltb,
  ◌==◌, if◌then◌else◌, ℤ, pos, sub_ℕ, pos_part, neg_part,
}
use lux_mon.Protocol.Frame.{Str}
use lux_mon.Engineering.{times}

-- The fields of `datetime.now(tz)` that the code reads; `weekday` and `month` are what
-- `strftime("%a")` and `strftime("%b")` return.
pub record Clock : Type 0 where
  pub hour : ℕ
  pub minute : ℕ
  pub weekday : Str
  pub month : Str

abbrev pub current_minutes : Clock → ℕ
current_minutes now = now.hour * 60 + now.minute

abbrev pub and_then_some {ℓ κ} : {A : Type ℓ} {B : Type κ} → Option A → (A → Option B) → Option B
and_then_some none f = none
and_then_some (some a) f = f a

-- `a + b`
unfoldable pub add_ℤ : ℤ → ℤ → ℤ
add_ℤ a b = sub_ℕ (pos_part a + pos_part b) (neg_part a + neg_part b)

abbrev pub is_space : ℕ → Bool
is_space c = c == 32 || (leb 9 c && leb c 13) || (leb 28 c && leb c 31)

abbrev pub is_digit : ℕ → Bool
is_digit c = leb 48 c && leb c 57

-- `text.lstrip()`, and its mirror image on the reversed text
unfoldable pub lstrip : Str → Str
lstrip [] = []
lstrip (c ∷ cs) = let rest = lstrip cs in if is_space c then rest else c ∷ cs

unfoldable pub reversed : Str → Str → Str
reversed [] done = done
reversed (c ∷ cs) done = reversed cs (c ∷ done)

unfoldable pub strip : Str → Str
strip text = reversed (lstrip (reversed (lstrip text) [])) []

-- `text.split(c, 1)`, unpacked into two names: it fails if `c` does not occur.
unfoldable pub split_once : ℕ → Str → Option (Str × Str)
split_once c [] = none
split_once c (x ∷ xs) =
    let rest = split_once c xs in
    if x == c then some ([], xs) else and_then_some rest (λ (a, b). some (x ∷ a, b))

-- The digits of `int(text)`: a `_` stands between two of them only.
unfoldable pub digits : ℕ → Bool → Str → Option ℕ
digits value after_digit [] = if after_digit then some value else none
digits value after_digit (c ∷ cs) =
    let rest = digits (if is_digit c then value * 10 + (c - 48) else value) (is_digit c) cs in
    if is_digit c || (c == 95 && after_digit) then rest else none

unfoldable pub signed : Str → Option ℤ
signed [] = none
signed (c ∷ cs) =
    if c == 45
    then and_then_some (digits 0 false cs) (λ n. some (sub_ℕ 0 n))
    else if c == 43
    then and_then_some (digits 0 false cs) (λ n. some (pos n))
    else and_then_some (digits 0 false (c ∷ cs)) (λ n. some (pos n))

-- `int(text)`, none where it raises
unfoldable pub int_of : Str → Option ℤ
int_of text = signed (strip text)

unfoldable pub parse_hhmm : Str → Option ℤ
parse_hhmm value = and_then_some (split_once 58 (strip value)) (λ (h, m).
    and_then_some (int_of h)
      (λ hours. and_then_some (int_of m) (λ minutes. some (add_ℤ (times 60 hours) minutes))))

-- ===== src/Base/Dict.antt =====
-- Python dictionaries as association lists in insertion order, keyed by numbers or by strings.
use Prim.Native.Nat.{ℕ}
use Prim.Native.String.{String}
use mathlib.Core.Path.{◌≡◌, refl, sym, ap, subst, ◌∙◌}
use mathlib.Core.Logic.{inl, inr}
use mathlib.Core.Bool.{Bool, true, false, ◌&&◌, ◌||◌}
use mathlib.Core.List.{List, [], ◌∷◌}
use mathlib.Core.Option.{Option, none, some}
use text.Mathlib.Text.{◌==◌ as str_eq}
use text.Mathlib.TextEquality.{eq_iff}
use native.Mathlib.Omega.{arith}
use lux_mon.Base.Tests.{◌==◌, ==_iff, if◌then◌else◌, Bool-cases}

module _ {ℓ} {V : Type ℓ} where
  -- `d.get(k)` at a number
  unfoldable pub lookup : ℕ → List (ℕ × V) → Option V
  lookup k [] = none
  lookup k ((j, v) ∷ d) = if j == k then some v else lookup k d

  -- `d.get(k)` at a string
  unfoldable pub lookup_str : String → List (String × V) → Option V
  lookup_str k [] = none
  lookup_str k ((j, v) ∷ d) = if str_eq j k then some v else lookup_str k d

  -- `{k: v for k, v in d.items() if p(v)}`
  unfoldable pub filter_items : (V → Bool) → List (ℕ × V) → List (ℕ × V)
  filter_items p [] = []
  filter_items p ((j, v) ∷ d) = if p v then (j, v) ∷ filter_items p d else filter_items p d

  -- No key is listed twice, as in every dictionary.
  abbrev pub DistinctKeys : List (ℕ × V) → Type ℓ
  DistinctKeys [] = Unit {ℓ}
  DistinctKeys ((j, v) ∷ d) = (lookup j d ≡ none) × DistinctKeys d

abbrev pub filter_option {ℓ} : {V : Type ℓ} → (V → Bool) → Option V → Option V
filter_option p none = none
filter_option p (some v) = if p v then some v else none

module _ {ℓ} {V : Type ℓ} where
  lookup-filter_none :
      (p : V → Bool) (k : ℕ) (d : List (ℕ × V))
      → lookup k d ≡ none
      → lookup k (filter_items p d) ≡ none
  unfolding lookup filter_items
  lookup-filter_none p k [] h = refl
  lookup-filter_none p k ((j, v) ∷ d) h = ground (arith, lookup-filter_none p k d)

  -- A dictionary comprehension keeps an entry if and only if its value passes.
  pub lookup-filter_items :
      (p : V → Bool) (k : ℕ) (d : List (ℕ × V))
      → DistinctKeys d
      → lookup k (filter_items p d) ≡ filter_option p (lookup k d)
  unfolding lookup filter_items
  lookup-filter_items p k [] h = refl
  lookup-filter_items p k ((j, v) ∷ d) (fresh, h) =
      ground (arith, lookup-filter_items p k d h, lookup-filter_none p j d fresh)

-- `x in xs` and `xs.issubset(ys)` on sets of strings.
unfoldable pub contains : String → List String → Bool
contains x [] = false
contains x (y ∷ ys) = str_eq x y || contains x ys

unfoldable pub is_subset : List String → List String → Bool
unfolding contains
is_subset [] ys = true
is_subset (x ∷ xs) ys = contains x ys && is_subset xs ys

pub str_eq_refl : (k : String) → str_eq k k ≡ true
str_eq_refl k = (eq_iff k k).1 refl

module _ {ℓ} {V : Type ℓ} where
  -- `d[k] = v`
  unfoldable pub assign : String → V → List (String × V) → List (String × V)
  assign k v [] = (k, v) ∷ []
  assign k v ((j, w) ∷ d) =
      let rest = assign k v d in if str_eq j k then (j, v) ∷ d else (j, w) ∷ rest

  -- A key that is assigned is looked up with its new value.
  pub lookup-assign_self :
      (k : String) (v : V) (d : List (String × V)) → lookup_str k (assign k v d) ≡ some v
  unfolding lookup_str assign
  lookup-assign_self k v [] = rw (str_eq_refl k) refl
  lookup-assign_self k v ((j, w) ∷ d) = elim (Bool-cases (str_eq j k)) [
    | inl t ↦ rw (t, t) refl
    | inr f ↦ rw (f, f) (lookup-assign_self k v d)
  ]

  -- The other keys keep their values.
  pub lookup-assign_other :
      (k i : String) (v : V) (d : List (String × V))
      → str_eq k i ≡ false
      → lookup_str i (assign k v d) ≡ lookup_str i d
  unfolding lookup_str assign
  lookup-assign_other k i v [] h = rw h refl
  lookup-assign_other k i v ((j, w) ∷ d) h = elim (Bool-cases (str_eq j k)) [
    | inl t ↦ rw (t, subst (λ x. str_eq x i ≡ false) (sym ((eq_iff j k).0 t)) h) refl
    | inr f ↦ rw f (ap (λ o. if str_eq j i then some w else o) (lookup-assign_other k i v d h))
  ]

module _ {ℓ} {V : Type ℓ} where
  -- `d[k] = v` at a number
  unfoldable pub assign_item : ℕ → V → List (ℕ × V) → List (ℕ × V)
  assign_item k v [] = (k, v) ∷ []
  assign_item k v ((j, w) ∷ d) =
      let rest = assign_item k v d in if j == k then (j, v) ∷ d else (j, w) ∷ rest

  -- `d.update(new)`
  unfoldable pub update_items : List (ℕ × V) → List (ℕ × V) → List (ℕ × V)
  update_items [] d = d
  update_items ((k, v) ∷ new) d = update_items new (assign_item k v d)

  abbrev pub or_else : Option V → Option V → Option V
  or_else none o = o
  or_else (some v) o = some v

  lookup-assign_item :
      (k i : ℕ) (v : V) (d : List (ℕ × V))
      → lookup i (assign_item k v d) ≡ (if k == i then some v else lookup i d)
  unfolding lookup assign_item
  lookup-assign_item k i v [] = refl
  lookup-assign_item k i v ((j, w) ∷ d) = elim (Bool-cases (j == k)) [
    | inl t ↦ let e : j ≡ k = (==_iff j k).0 t in rw (t, e) (same (k == i) (lookup i d))
    | inr f ↦ rw f (elim (Bool-cases (j == i)) [
      | inl t ↦ rw (t, other j k i f t) refl
      | inr g ↦ rw (g, lookup-assign_item k i v d) refl
    ])
  ]
    where
      same :
          (b : Bool) (o : Option V)
          → (if b then some v else o) ≡ (if b then some v else if b then some w else o)
      same true o = refl
      same false o = refl

      other : (j k i : ℕ) → (j == k) ≡ false → (j == i) ≡ true → (k == i) ≡ false
      other j k i f t = ground arith

  -- What an update looks up: the new value where there is one, else the old one.
  pub lookup-update_items :
      (i : ℕ) (new d : List (ℕ × V))
      → DistinctKeys new
      → lookup i (update_items new d) ≡ or_else (lookup i new) (lookup i d)
  unfolding lookup update_items
  lookup-update_items i [] d h = refl
  lookup-update_items i ((k, v) ∷ new) d (h, hs) =
      lookup-update_items i new (assign_item k v d) hs
      ∙ ap (or_else (lookup i new)) (lookup-assign_item k i v d)
      ∙ chosen (k == i) refl
    where
      chosen :
          (b : Bool)
          → (k == i) ≡ b
          → or_else (lookup i new) (if b then some v else lookup i d)
            ≡ or_else (if b then some v else lookup i new) (lookup i d)
      chosen true t =
          let e : lookup i new ≡ none = subst (λ x. lookup x new ≡ none) ((==_iff k i).0 t) h in
          rw e refl
      chosen false f = refl

-- ===== src/Rs485/Cells/Extremes.antt =====
-- What the loop over the cells finds.
use lux_mon.Base.{
  ℕ, zero, suc, ◌+◌, ◌≤◌, ◌≡◌, inl, inr, refl, ap, ◌∙◌, List, [], ◌∷◌, ◌++◌, append_assoc,
  append-nil, some, ltb, length, length-append, get_elem?, All, All-append, arith, Bool-cases,
  subst,
}
use lux_mon.Rs485.Cells.{CellScan, no_cells, see_cell, see_cells}

abbrev pub sum : List ℕ → ℕ
sum [] = 0
sum (x ∷ xs) = x + sum xs

-- The cell with a number from 1 on has the voltage; number 0 stands for none, and a value `nothing`.
abbrev pub Picked : List ℕ → ℕ → ℕ → ℕ → Type 0
Picked cells nothing zero v = v ≡ nothing
Picked cells nothing (suc i) v = get_elem? cells i ≡ some v

-- The scan of these cells: the lowest and the highest voltage bound all of them, and are those of
-- the cells with their numbers. Only where no cell is below the limit, or above 0, there is none.
pub record Scanned (limit : ℕ) (cells : List ℕ) (s : CellScan) : Type 0 where
  pub voltages : s.cell_voltages ≡ cells
  pub total : s.sum_v ≡ sum cells
  pub lowest : All (λ mv. s.min_v ≤ mv) cells
  pub highest : All (λ mv. mv ≤ s.max_v) cells
  pub lowest_cell : Picked cells limit s.min_idx s.min_v
  pub highest_cell : Picked cells 0 s.max_idx s.max_v

get-append : (xs ys : List ℕ) (i v : ℕ) → get_elem? xs i ≡ some v → get_elem? (xs ++ ys) i ≡ some v
get-append [] ys i v h = cc
get-append (x ∷ xs) ys zero v h = h
get-append (x ∷ xs) ys (suc i) v h = get-append xs ys i v h

get-last : (xs : List ℕ) (v : ℕ) → get_elem? (xs ++ v ∷ []) (length xs) ≡ some v
get-last [] v = refl
get-last (x ∷ xs) v = get-last xs v

sum-last : (xs : List ℕ) (v : ℕ) → sum (xs ++ v ∷ []) ≡ sum xs + v
sum-last [] v = omega arith
sum-last (x ∷ xs) v = omega (arith, sum-last xs v)

All-weaken {ℓ κ} :
    {A : Type 0} {P : A → Type ℓ} {Q : A → Type κ} (xs : List A)
    → ((x : A) → P x → Q x)
    → All P xs
    → All Q xs
All-weaken [] f h = tt
All-weaken (x ∷ xs) f (h, hs) = (f x h, All-weaken xs f hs)

Picked-append :
    (cells ys : List ℕ) (nothing i v : ℕ)
    → Picked cells nothing i v
    → Picked (cells ++ ys) nothing i v
Picked-append cells ys nothing zero v h = h
Picked-append cells ys nothing (suc i) v h = get-append cells ys i v h

Picked-new :
    (cells : List ℕ) (nothing v : ℕ) → Picked (cells ++ v ∷ []) nothing (length cells + 1) v
Picked-new cells nothing v =
    let next : suc (length cells) ≡ length cells + 1 = omega arith in
    subst (λ n. Picked (cells ++ v ∷ []) nothing n v) next (get-last cells v)

see_cell-Scanned :
    (limit : ℕ) (cells : List ℕ) (mv : ℕ) (s : CellScan)
    → Scanned limit cells s
    → Scanned limit (cells ++ mv ∷ []) (see_cell (length cells) mv s)
unfolding see_cell
see_cell-Scanned limit cells mv s h = record {
  voltages = ap (λ l. l ++ mv ∷ []) h.voltages;
  total = omega (arith, h.total, sum-last cells mv);
  lowest =
      All-append _ cells (mv ∷ []) (All-weaken cells (λ x k. ground arith) h.lowest)
        (ground arith, tt);
  highest =
      All-append _ cells (mv ∷ []) (All-weaken cells (λ x k. ground arith) h.highest)
        (ground arith, tt);
  lowest_cell = elim (Bool-cases (ltb mv s.min_v)) [
    | inl t ↦ rw t (Picked-new cells limit mv)
    | inr f ↦ rw f (Picked-append cells (mv ∷ []) limit s.min_idx s.min_v h.lowest_cell)
  ];
  highest_cell = elim (Bool-cases (ltb s.max_v mv)) [
    | inl t ↦ rw t (Picked-new cells 0 mv)
    | inr f ↦ rw f (Picked-append cells (mv ∷ []) 0 s.max_idx s.max_v h.highest_cell)
  ];
}

see_cells-from :
    (limit : ℕ) (seen cells : List ℕ) (s : CellScan)
    → Scanned limit seen s
    → Scanned limit (seen ++ cells) (see_cells (length seen) cells s)
unfolding see_cells
see_cells-from limit seen [] s h = rw (append-nil seen) h
see_cells-from limit seen (mv ∷ mvs) s h =
    let next =
      see_cells-from limit (seen ++ mv ∷ []) mvs (see_cell (length seen) mv s)
        (see_cell-Scanned limit seen mv s h) in
    subst (λ l. Scanned limit l (see_cells (length seen + 1) mvs (see_cell (length seen) mv s)))
      (append_assoc seen (mv ∷ []) mvs)
      (subst
        (λ n.
          Scanned limit ((seen ++ mv ∷ []) ++ mvs) (see_cells n mvs (see_cell (length seen) mv s)))
        (length-append seen (mv ∷ []) ∙ omega arith) next)

-- The scan of any list of cells.
pub see_cells-Scanned :
    (limit : ℕ) (cells : List ℕ) → Scanned limit cells (see_cells 0 cells (no_cells limit))
see_cells-Scanned limit cells = see_cells-from limit [] cells (no_cells limit) (record {
  voltages = refl;
  total = refl;
  lowest = tt;
  highest = tt;
  lowest_cell = refl;
  highest_cell = refl;
})

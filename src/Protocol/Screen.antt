-- ===== src/Protocol/Screen.antt =====
-- crates/protocol/src/lib.rs, `bounded_screen_dimensions`: the sizes that a screen may have.
use mult.Base.{
  ℕ, zero, suc, ◌+◌, ◌*◌, ◌/◌, ◌%◌, ◌^◌, ◌≤◌, ◌<◌, ◌≡◌, refl, sym, ap, subst, inl, inr, Bool-cases,
  ==→eq, min, max, ◌-◌, Bool, true, false, ◌&&◌, arith, ltb, leb, ◌==◌, if◌then◌else◌,
}

abbrev pub max_screen_rows : ℕ
max_screen_rows = 1000

abbrev pub max_screen_cols : ℕ
max_screen_cols = 1000

abbrev pub max_screen_cells : ℕ
max_screen_cells = 200000

abbrev pub min_screen_rows : ℕ
min_screen_rows = 2

abbrev pub min_screen_cols : ℕ
min_screen_cols = 2

-- `Ord::clamp`.
abbrev pub clamp : ℕ → ℕ → ℕ → ℕ
clamp x lo hi = if ltb x lo then lo else if ltb hi x then hi else x

-- `as u16` keeps the low 16 bits.
pub max_rows_by_cells : ℕ → ℕ
max_rows_by_cells cols = max (max_screen_cells / cols) 1 % 2 ^ 16

unfoldable pub bounded_screen_dimensions : ℕ → ℕ → ℕ × ℕ
unfolding max_rows_by_cells
bounded_screen_dimensions rows cols =
    let c = clamp cols min_screen_cols max_screen_cols in
    (max (min (min rows max_screen_rows) (max_rows_by_cells c)) min_screen_rows, c)

-- A test tried at every number below a bound.
tabulate : (ℕ → Bool) → ℕ → Bool
tabulate test zero = true
tabulate test (suc k) = if test k then tabulate test k else false

tabulate_at : (test : ℕ → Bool) (k n : ℕ) → n < k → tabulate test k ≡ true → test n ≡ true
unfolding tabulate
tabulate_at test zero n small table = absurd (omega arith)
tabulate_at test (suc k) n small table = elim (Bool-cases (n == k)) [
  | inl last ↦ subst (λ m. test m ≡ true) (sym (==→eq n k last)) (ground arith)
  | inr before ↦ tabulate_at test k n (ground arith) (ground arith)
]

-- At every width within the bounds: the rows allowed fit the cells, are no fewer than the floor,
-- and, although the quotient is cut to 16 bits, are those of the quotient.
abbrev fits : ℕ → Bool
fits n =
    let c = n + 2 in
    leb (min max_screen_rows (max_rows_by_cells c) * c) max_screen_cells
    && leb 200 (max_rows_by_cells c)
    && (min max_screen_rows (max_rows_by_cells c) == min max_screen_rows (max_screen_cells / c))

fits_table : tabulate fits 999 ≡ true
unfolding tabulate max_rows_by_cells
fits_table = refl

module _ (c : ℕ) (lo : min_screen_cols ≤ c) (hi : c ≤ max_screen_cols) where
  width_facts :
      (min max_screen_rows (max_rows_by_cells c) * c ≤ max_screen_cells)
      × (200 ≤ max_rows_by_cells c)
      × (min max_screen_rows (max_rows_by_cells c) ≡ min max_screen_rows (max_screen_cells / c))
  width_facts =
      let e : c - 2 + 2 ≡ c = omega arith in
      let t = tabulate_at fits 999 (c - 2) (omega arith) fits_table in
      let u =
        subst
          (λ k.
            (leb (min max_screen_rows (max_rows_by_cells k) * k) max_screen_cells
              && leb 200 (max_rows_by_cells k)
              && (min max_screen_rows (max_rows_by_cells k)
                  == min max_screen_rows (max_screen_cells / k)))
            ≡ true)
          e t in
      ground arith

mul_mono : (a b c : ℕ) → a ≤ b → a * c ≤ b * c
mul_mono a b c h = grind arith

le_div : (r c n : ℕ) → 0 < c → r * c ≤ n → r ≤ n / c
le_div r c n p h = grind arith

clamp_bounds : (x lo hi : ℕ) → lo ≤ hi → (lo ≤ clamp x lo hi) × (clamp x lo hi ≤ hi)
clamp_bounds x lo hi h = ground arith

module _ (rows c : ℕ) (lo : min_screen_cols ≤ c) (hi : c ≤ max_screen_cols) where
  rows_fit :
      max (min (min rows max_screen_rows) (max_rows_by_cells c)) min_screen_rows * c
      ≤ max_screen_cells
  rows_fit =
      let w = width_facts c lo hi in
      omega (
        arith,
        w.0,
        mul_mono (max (min (min rows max_screen_rows) (max_rows_by_cells c)) min_screen_rows)
            (min max_screen_rows (max_rows_by_cells c)) c (omega (arith, w.1)),
      )

-- Whatever is asked for, the screen is at least `min_screen_rows` by `min_screen_cols`, at most
-- `max_screen_rows` by `max_screen_cols`, and has at most `max_screen_cells` cells.
pub bounded_screen_dimensions_bounds :
    (rows cols : ℕ)
    → (min_screen_rows ≤ (bounded_screen_dimensions rows cols).0)
      × ((bounded_screen_dimensions rows cols).0 ≤ max_screen_rows)
      × (min_screen_cols ≤ (bounded_screen_dimensions rows cols).1)
      × ((bounded_screen_dimensions rows cols).1 ≤ max_screen_cols)
      × ((bounded_screen_dimensions rows cols).0 * (bounded_screen_dimensions rows cols).1
          ≤ max_screen_cells)
unfolding bounded_screen_dimensions
bounded_screen_dimensions_bounds rows cols =
    let (lo, hi) = clamp_bounds cols min_screen_cols max_screen_cols (omega arith) in
    (omega arith, omega arith, lo, hi, rows_fit rows _ lo hi)

-- A size within the bounds and the number of cells is left as it is.
pub bounded_screen_dimensions_within :
    (rows cols : ℕ)
    → min_screen_rows ≤ rows
    → rows ≤ max_screen_rows
    → min_screen_cols ≤ cols
    → cols ≤ max_screen_cols
    → rows * cols ≤ max_screen_cells
    → bounded_screen_dimensions rows cols ≡ (rows, cols)
unfolding bounded_screen_dimensions
bounded_screen_dimensions_within rows cols a b c d e =
    let same : clamp cols min_screen_cols max_screen_cols ≡ cols = ground arith in
    rw same (
      ap (λ (r : ℕ). (r, cols))
        (omega (arith, width_facts cols c d, le_div rows cols max_screen_cells (omega arith) e)))

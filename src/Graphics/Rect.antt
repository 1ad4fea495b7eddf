-- ===== src/Graphics/Rect.antt =====
-- kernel/graphics.c: what the loops of `gfx_rect` write.
use native.Mathlib.Nat.{mul-le-mul_right, suc-mul}
use un_orion.Common.{
  ℕ, zero, suc, ◌+◌, ◌*◌, ◌≤◌, ◌<◌, ◌≡◌, Bool, ◌&&◌, ltb, leb, ◌==◌, if◌then◌else◌, Bool-cases, inl,
  inr, arith,
}
use un_orion.Graphics.{BootInfo, offset, store, fill_row, fill_rows}

-- The index `j` lies in a row of `w` pixels from `off` on.
abbrev pub in_row : ℕ → ℕ → ℕ → Bool
in_row w off j = leb off j && ltb j (off + w)

pub fill_row-in_row :
    (w off v : ℕ) (fb : ℕ → ℕ) (j : ℕ)
    → fill_row w off v fb j ≡ (if in_row w off j then v else fb j)
unfolding fill_row store
fill_row-in_row zero off v fb j = ground arith
fill_row-in_row (suc w) off v fb j =
    rw (fill_row-in_row w (off + 1) v (store off v fb) j) (ground arith)

next_row : (m n p : ℕ) → m < n → m * p + p ≤ n * p
next_row m n p h = let a : suc m * p ≤ n * p = mul-le-mul_right p h in omega (arith, suc-mul m p)

-- A row of a frame buffer by coordinates.
in_row-offset :
    (bi : BootInfo) (x y w px py : ℕ)
    → x + w ≤ bi.pixels_per_scanline
    → px < bi.pixels_per_scanline
    → in_row w (offset bi x y) (offset bi px py) ≡ (py == y && in_row w x px)
in_row-offset bi x y w px py h k = elim (Bool-cases (py == y)) [
  | inl e ↦ let same : py ≡ y = ground arith in rw same (ground arith)
  | inr n ↦ elim (Bool-cases (ltb py y)) [
    | inl below ↦ ground (arith, next_row py y bi.pixels_per_scanline (ground arith))
    | inr above ↦ ground (arith, next_row y py bi.pixels_per_scanline (ground arith))
  ]
]

-- The pixel lies in the rectangle.
abbrev pub in_rect : ℕ → ℕ → ℕ → ℕ → ℕ → ℕ → Bool
in_rect x y w h px py = in_row w x px && in_row h y py

pub fill_rows-in_rect :
    (bi : BootInfo) (h x y w v : ℕ) (fb : ℕ → ℕ) (px py : ℕ)
    → x + w ≤ bi.pixels_per_scanline
    → px < bi.pixels_per_scanline
    → fill_rows bi h x y w v fb (offset bi px py)
      ≡ (if in_rect x y w h px py then v else fb (offset bi px py))
unfolding fill_rows
fill_rows-in_rect bi zero x y w v fb px py a b = ground arith
fill_rows-in_rect bi (suc h) x y w v fb px py a b =
    rw
      (
        fill_rows-in_rect bi h x (y + 1) w v (fill_row w (offset bi x y) v fb) px py a b,
        fill_row-in_row w (offset bi x y) v fb (offset bi px py),
        in_row-offset bi x y w px py a b,
      )
      (ground arith)

-- ===== src/Graphics/Clip.antt =====
-- kernel/graphics.c: `gfx_rect` against the pixels that it is to set.
use un_orion.Common.{
  ℕ, ◌+◌, ◌-◌, ◌^◌, ◌≤◌, ◌<◌, ◌≡◌, Bool, false, not, ◌&&◌, some, u32, ltb, leb, ◌==◌, if◌then◌else◌,
  Bool-cases, inl, inr, arith,
}
use un_orion.Graphics.{BootInfo, Gfx, pack_pixel, stored, offset, outside, gfx_rect}
use un_orion.Graphics.Rect.{in_row, in_rect, fill_rows-in_rect}

-- The pixel is on the screen.
abbrev pub on_screen : BootInfo → ℕ → ℕ → Bool
on_screen bi px py = ltb px bi.width && ltb py bi.height

-- The length that `gfx_rect` cuts off at the edge of the screen.
abbrev clipped : ℕ → ℕ → ℕ → ℕ
clipped limit x w = if ltb limit (u32 (x + w)) then limit - x else w

clipped-in_row :
    (limit x w p : ℕ)
    → x + w < 2 ^ 32
    → leb limit x ≡ false
    → in_row (clipped limit x w) x p ≡ (in_row w x p && ltb p limit)
clipped-in_row limit x w p h k = ground arith

on_both : (a b c d : Bool) → (a && b) && (c && d) ≡ (a && c) && (b && d)
on_both a b c d = ground arith

-- A rectangle that does not run over 2^32 sets each of its pixels that is on the screen to the colour,
-- and every other one, also behind the end of a scan line and below the screen, is as before. Without a
-- frame buffer nothing changes.
pub gfx_rect-exact :
    (bi : BootInfo) (g : Gfx) (x y w h c px py : ℕ)
    → g.bi ≡ some bi
    → x + w < 2 ^ 32
    → y + h < 2 ^ 32
    → bi.width ≤ bi.pixels_per_scanline
    → px < bi.pixels_per_scanline
    → (gfx_rect x y w h c g).pixels (offset bi px py) ≡ (
        if not (bi.framebuffer_base == 0) && (in_rect x y w h px py && on_screen bi px py)
        then stored bi (pack_pixel bi c)
        else g.pixels (offset bi px py))
unfolding gfx_rect
gfx_rect-exact bi g x y w h c px py e a b s k = elim (Bool-cases (outside bi x y)) [
  | inl y ↦ rw (e, y) (ground arith)
  | inr n ↦
      let in_width : leb bi.width x ≡ false = ground arith in
      let in_height : leb bi.height y ≡ false = ground arith in
      let ready : bi.framebuffer_base == 0 ≡ false = ground arith in
      rw (
        e,
        n,
        fill_rows-in_rect bi (clipped bi.height y h) x y (clipped bi.width x w)
            (stored bi (pack_pixel bi c)) g.pixels px py (ground arith) k,
        clipped-in_row bi.width x w px a in_width,
        clipped-in_row bi.height y h py b in_height,
        ready,
        on_both (in_row w x px) (ltb px bi.width) (in_row h y py) (ltb py bi.height),
      )
]

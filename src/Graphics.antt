-- ===== src/Graphics.antt =====
-- kernel/graphics.c, include/graphics.h: the frame buffer. It is a function of the index that the code
-- computes, in units of a pixel: 16 bits in the mode RGB565, and 32 bits otherwise.
pub mod Rect
pub mod Clip
use un_orion.Common.{
  ℕ, zero, suc, ◌+◌, ◌-◌, ◌*◌, ◌/◌, ◌%◌, ◌^◌, Bool, true, false, not, ◌&&◌, ◌||◌, Option, none,
  some, List, [], ◌∷◌, Bytes, u16, u32, u64, bit_and, ltb, leb, ◌==◌, if◌then◌else◌,
}

-- The fields of `OrionBootInfo` that the file reads.
pub record BootInfo : Type 0 where
  pub framebuffer_base : ℕ
  pub width : ℕ
  pub height : ℕ
  pub pixels_per_scanline : ℕ
  pub pixel_format : ℕ

-- `g_bi` and the frame buffer.
pub record Gfx : Type 0 where
  pub bi : Option BootInfo
  pub pixels : ℕ → ℕ

abbrev pub rgb565_mode : BootInfo → Bool
rgb565_mode bi = bi.pixel_format == 0x100

-- The fields of a pixel do not overlap, so `|` is a sum.
unfoldable pub pack_pixel : BootInfo → ℕ → ℕ
pack_pixel bi rgb =
    let r = rgb / 2 ^ 16 % 256 in
    let g = rgb / 2 ^ 8 % 256 in
    let b = rgb % 256 in
    if rgb565_mode bi
    then r / 8 * 2 ^ 11 + g / 4 * 2 ^ 5 + b / 8
    else if bi.pixel_format == 0
    then b * 2 ^ 16 + g * 2 ^ 8 + r
    else r * 2 ^ 16 + g * 2 ^ 8 + b

-- What a pixel takes of a value.
unfoldable pub stored : BootInfo → ℕ → ℕ
stored bi v = if rgb565_mode bi then u16 v else u32 v

-- `fb[off]=v`
unfoldable pub store : ℕ → ℕ → (ℕ → ℕ) → ℕ → ℕ
store off v fb j = if j == off then v else fb j

abbrev pub offset : BootInfo → ℕ → ℕ → ℕ
offset bi x y = y * bi.pixels_per_scanline + x

abbrev pub outside : BootInfo → ℕ → ℕ → Bool
outside bi x y = bi.framebuffer_base == 0 || leb bi.width x || leb bi.height y

unfoldable pub gfx_init : Option BootInfo → Gfx → Gfx
gfx_init bi g = record g { bi = bi }

abbrev pub put : BootInfo → ℕ → ℕ → ℕ → Gfx → Gfx
put bi x y v g =
    if outside bi x y then g else record g { pixels = store (offset bi x y) (stored bi v) g.pixels }

unfoldable pub gfx_pixel : ℕ → ℕ → ℕ → Gfx → Gfx
gfx_pixel x y c g = elim g.bi [ none ↦ g | some bi ↦ put bi x y (pack_pixel bi c) g ]

unfoldable pub gfx_put_raw : ℕ → ℕ → ℕ → Gfx → Gfx
gfx_put_raw x y raw g = elim g.bi [ none ↦ g | some bi ↦ put bi x y raw g ]

unfoldable pub gfx_get_raw : ℕ → ℕ → Gfx → ℕ
gfx_get_raw x y g = elim g.bi [
  | none ↦ 0
  | some bi ↦ if outside bi x y then 0 else g.pixels (offset bi x y)
]

-- The loops of `gfx_rect`.
unfoldable pub fill_row : ℕ → ℕ → ℕ → (ℕ → ℕ) → ℕ → ℕ
fill_row zero off v fb = fb
fill_row (suc w) off v fb = fill_row w (off + 1) v (store off v fb)

unfoldable pub fill_rows : BootInfo → ℕ → ℕ → ℕ → ℕ → ℕ → (ℕ → ℕ) → ℕ → ℕ
fill_rows bi zero x y w v fb = fb
fill_rows bi (suc h) x y w v fb = fill_rows bi h x (y + 1) w v (fill_row w (offset bi x y) v fb)

abbrev pub rect : BootInfo → ℕ → ℕ → ℕ → ℕ → ℕ → Gfx → Gfx
rect bi x y w h c g =
    let w' = if ltb bi.width (u32 (x + w)) then bi.width - x else w in
    let h' = if ltb bi.height (u32 (y + h)) then bi.height - y else h in
    if outside bi x y
    then g
    else record g { pixels = fill_rows bi h' x y w' (stored bi (pack_pixel bi c)) g.pixels }

unfoldable pub gfx_rect : ℕ → ℕ → ℕ → ℕ → ℕ → Gfx → Gfx
gfx_rect x y w h c g = elim g.bi [ none ↦ g | some bi ↦ rect bi x y w h c g ]

unfoldable pub gfx_line_h : ℕ → ℕ → ℕ → ℕ → Gfx → Gfx
gfx_line_h x y w c g = gfx_rect x y w 1 c g

-- A font that tools/fontgen.py writes: `first` and `last` character, the size of a glyph, its rows of
-- bits and its width.
pub record Font : Type 0 where
  pub first : ℕ
  pub last : ℕ
  pub glyph_width : ℕ
  pub glyph_height : ℕ
  pub row : ℕ → ℕ → ℕ
  pub advance : ℕ → ℕ

-- `left` columns of a row are to be drawn, from bit `left - 1` down.
unfoldable pub draw_columns : ℕ → ℕ → ℕ → ℕ → ℕ → ℕ → Gfx → Gfx
draw_columns zero bits x y scale color g = g
draw_columns (suc left) bits x y scale color g =
    let next = if bits / 2 ^ left % 2 == 0 then g else gfx_rect x y scale scale color g in
    draw_columns left bits (u32 (x + scale)) y scale color next

unfoldable pub draw_glyph : Font → ℕ → ℕ → ℕ → ℕ → ℕ → ℕ → Gfx → Gfx
draw_glyph font zero glyph x y scale color g = g
draw_glyph font (suc left) glyph x y scale color g =
    let bits = font.row glyph (font.glyph_height - suc left) in
    draw_glyph font left glyph x (u32 (y + scale)) scale color
      (draw_columns font.glyph_width bits x y scale color g)

abbrev pub glyph_of : Font → ℕ → ℕ
glyph_of font ch = (if ltb ch font.first || ltb font.last ch then b'?' else ch) - font.first

unfoldable pub draw_char : Font → ℕ → ℕ → ℕ → ℕ → ℕ → Gfx → ℕ × Gfx
draw_char font x y ch color scale g =
    let glyph = glyph_of font ch in
    (
      u32 ((font.advance glyph + 1) * scale),
      draw_glyph font font.glyph_height glyph x y scale color g,
    )

-- `gfx_text` from `x` on: where it ends.
unfoldable pub text_from : Font → ℕ → ℕ → Bytes → ℕ → ℕ → Gfx → ℕ × Gfx
text_from font x y [] c scale g = (x, g)
text_from font x y (ch ∷ s) c scale g =
    let (w, g') = draw_char font x y ch c scale g in text_from font (u32 (x + w)) y s c scale g'

unfoldable pub gfx_text : Font → ℕ → ℕ → Bytes → ℕ → ℕ → Gfx → ℕ × Gfx
gfx_text font x y s c scale g =
    let (end, g') = text_from font x y s c scale g in (u32 (end + 2 ^ 32 - x), g')

-- `display` is the large font, which has the capital letters.
unfoldable pub display_char : Font → Font → ℕ → ℕ → ℕ → ℕ → Gfx → ℕ × Gfx
display_char font display x y ch color g =
    if ltb ch b'A' || ltb b'Z' ch then draw_char font x y ch color 1 g else (
      u32 (display.advance (ch - b'A') + 2),
      draw_glyph display display.glyph_height (ch - b'A') x y 1 color g,
    )

unfoldable pub display_from : Font → Font → ℕ → ℕ → Bytes → ℕ → Gfx → ℕ × Gfx
display_from font display x y [] c g = (x, g)
display_from font display x y (ch ∷ s) c g =
    let (w, g') = display_char font display x y ch c g in
    display_from font display (u32 (x + w)) y s c g'

unfoldable pub gfx_display_text : Font → Font → ℕ → ℕ → Bytes → ℕ → Gfx → ℕ × Gfx
gfx_display_text font display x y s c g =
    let (end, g') = display_from font display x y s c g in (u32 (end + 2 ^ 32 - x), g')

unfoldable pub text_width : Font → Bytes → ℕ → ℕ
text_width font [] w = w
text_width font (ch ∷ s) w = text_width font s (u32 (w + font.advance (glyph_of font ch) + 1))

unfoldable pub gfx_text_right : Font → ℕ → ℕ → Bytes → ℕ → Gfx → Gfx
gfx_text_right font right y s c g =
    let w = text_width font s 0 in
    (gfx_text font (if ltb w right then right - w else 0) y s c 1 g).1

-- ===== src/PixelFormat/Texts.antt =====
-- Names and sizes of the pixel formats.
use seekira.Common.{◌*◌, ◌≡◌, refl, ◌↔◌, true, some, ◌==◌, nat_eq, String, string_eq}
use seekira.Graph.{elem}
use seekira.Names.{find_pair_by_second}
use seekira.Names.Search.{names, are_different, find_all_by_type-read}
use seekira.PixelFormat.{
  PixFmt, undefined, gray, rgb, rgba, bgr, bgra, end_of, pix_fmt_eq, pixel_formats, get_bpp,
  get_channels_count, has_alpha, to_strings,
}

all_different : are_different (names pixel_formats) ≡ true
unfolding are_different elem
all_different = refl

-- The names that `to_strings` lists for a format are exactly those that the table has and that are read
-- as this format.
pub to_strings-read :
    (n : String) (f : PixFmt)
    → (elem n (to_strings f) ≡ true) ↔ (find_pair_by_second n pixel_formats ≡ some (f, n))
unfolding to_strings
to_strings-read n f = find_all_by_type-read n f pixel_formats all_different

-- Each channel of a format has 8 bits, and a format has an alpha channel exactly when it has four
-- channels.
pub get_bpp-channels :
    (f : PixFmt)
    → (get_bpp f ≡ 8 * get_channels_count f) × (has_alpha f ≡ (get_channels_count f == 4))
unfolding get_bpp get_channels_count has_alpha
get_bpp-channels undefined = (refl, refl)
get_bpp-channels gray = (refl, refl)
get_bpp-channels rgb = (refl, refl)
get_bpp-channels rgba = (refl, refl)
get_bpp-channels bgr = (refl, refl)
get_bpp-channels bgra = (refl, refl)
get_bpp-channels end_of = (refl, refl)

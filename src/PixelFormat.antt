-- ===== src/PixelFormat.antt =====
-- src/video/frame/interfaces: pixel_format.hpp and pixel_format.cpp.
pub mod Texts
use seekira.Common.{
  ℕ, ◌≡◌, refl, sym, ◌∙◌, ap, ◌↔◌, String, Bool, true, false, Option, none, some, List, [], ◌∷◌, Eq,
  ◌==◌, nat_beq, nat_beq_iff, get_or,
}
use seekira.Names.{find_by_type, find_all_by_type, find_by_str}

pub data PixFmt : Type 0 where
  undefined : PixFmt
  gray : PixFmt
  rgb : PixFmt
  rgba : PixFmt
  bgr : PixFmt
  bgra : PixFmt
  end_of : PixFmt

unfoldable pub value : PixFmt → ℕ
value undefined = 0
value gray = 1
value rgb = 2
value rgba = 3
value bgr = 4
value bgra = 5
value end_of = 6

from_value : ℕ → PixFmt
from_value n = get_or (undefined ∷ gray ∷ rgb ∷ rgba ∷ bgr ∷ bgra ∷ []) n end_of

from_value-value : (f : PixFmt) → from_value (value f) ≡ f
unfolding from_value value
from_value-value undefined = refl
from_value-value gray = refl
from_value-value rgb = refl
from_value-value rgba = refl
from_value-value bgr = refl
from_value-value bgra = refl
from_value-value end_of = refl

pub value_beq_iff : (a b : PixFmt) → (nat_beq (value a) (value b) ≡ true) ↔ (a ≡ b)
value_beq_iff a b = (
  (λ h.
      sym (from_value-value a)
      ∙ ap from_value ((nat_beq_iff (value a) (value b)).0 h)
      ∙ from_value-value b),
  λ h. (nat_beq_iff (value a) (value b)).1 (ap value h),
)

-- Values of an enumeration are equal when their numbers are.
instance abbrev pub pix_fmt_eq : Eq PixFmt
pix_fmt_eq = record { equals = λ a b. nat_beq (value a) (value b); equals_iff = value_beq_iff }

abbrev pub pixel_formats : List (PixFmt × String)
pixel_formats =
    (gray, "GRAY")
    ∷ (gray, "Grayscaled")
    ∷ (bgr, "BGR")
    ∷ (bgr, "BGR8Packed")
    ∷ (bgra, "BGRA")
    ∷ (bgra, "BGRA8Packed")
    ∷ (rgb, "RGB")
    ∷ (rgb, "RGB8Packed")
    ∷ (rgba, "RGBA")
    ∷ (rgba, "RGBA8Packed")
    ∷ []

unfoldable pub get_bpp : PixFmt → ℕ
get_bpp gray = 8
get_bpp bgr = 24
get_bpp bgra = 32
get_bpp rgb = 24
get_bpp rgba = 32
get_bpp _ = 0

unfoldable pub get_channels_count : PixFmt → ℕ
get_channels_count gray = 1
get_channels_count bgr = 3
get_channels_count bgra = 4
get_channels_count rgb = 3
get_channels_count rgba = 4
get_channels_count _ = 0

unfoldable pub has_alpha : PixFmt → Bool
has_alpha bgra = true
has_alpha rgba = true
has_alpha _ = false

unfoldable pub to_string : PixFmt → String
unfolding find_by_type
to_string f = find_by_type f pixel_formats

unfoldable pub to_strings : PixFmt → List String
unfolding find_all_by_type
to_strings f = find_all_by_type f pixel_formats

unfoldable pub from_string : String → PixFmt
unfolding find_by_str
from_string s = find_by_str undefined s pixel_formats

-- ===== src/Tests/Formats.antt =====
-- Pixel formats and their names.
use seekira.Common.{◌≡◌, refl, nat_eq, string_eq}
use seekira.Graph.{elem}
use seekira.Names.{find_pair_by_first, find_pair_by_second, find_by_type, find_by_str}
use seekira.Names.Search.{are_different, find_by_str-find_by_type}
use seekira.PixelFormat.{
  undefined, bgr, rgba, value, pix_fmt_eq, pixel_formats, to_string, from_string,
}

-- A second name is read, but not printed.
reads_second_name : to_string (from_string "BGR8Packed") ≡ "BGR"
unfolding to_string from_string find_by_type find_by_str find_pair_by_first find_pair_by_second
    value
reads_second_name = refl

reads_rgba : from_string (to_string rgba) ≡ rgba
unfolding to_string from_string find_by_type find_by_str find_pair_by_first find_pair_by_second
    value
reads_rgba = refl

find_by_str-find_by_type_example :
    find_by_str undefined (find_by_type bgr pixel_formats) pixel_formats ≡ bgr
unfolding are_different elem find_pair_by_first value
find_by_str-find_by_type_example =
    find_by_str-find_by_type undefined bgr pixel_formats bgr "BGR" refl refl

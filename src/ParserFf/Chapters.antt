-- ===== src/ParserFf/Chapters.antt =====
-- The chapters of a VOB or VRO file (the first branch of `read_packet` in parser.cpp).
use seekira.Common.{
  ℕ, suc, Bool, true, not, ◌||◌, Option, none, some, List, [], ◌∷◌, get_elem?, ◌==◌, if◌then◌else◌,
}
use seekira.Common.Int.{ℤ, pos, negsuc, ◌+ℤ◌, leb_ℤ, ltb_ℤ, int_eq}
use seekira.Common.Dict.{lookup, insert, contains}
use seekira.Packet.{no_pts}
use seekira.ParserFf.{AvPacket, ChapterVob, ParserFf}

-- The last chapter that begins at the place or before it, or -1; `i` is the first one's index.
unfoldable pub find_chapter : ℤ → ℕ → List ChapterVob → ℤ
find_chapter place i [] = negsuc 0
find_chapter place i (c ∷ cs) =
    let later = find_chapter place (suc i) cs in
    if later == negsuc 0 then (if leb_ℤ c.pos_start place then pos i else negsuc 0) else later

unfoldable pub chapter_at : ℤ → List ChapterVob → Option ChapterVob
chapter_at (negsuc n) cs = none
chapter_at (pos n) cs = get_elem? cs n

-- The packet lies outside the chapter.
unfoldable pub is_outside : ℤ → Option ChapterVob → Bool
is_outside place none = true
is_outside place (some c) = ltb_ℤ place c.pos_start || ltb_ℤ c.pos_end place

unfoldable pub next_chapter : ℤ → ℤ → List ChapterVob → ℤ
unfolding find_chapter chapter_at is_outside
next_chapter place current cs =
    if ltb_ℤ (pos 0) place
    then (if is_outside place (chapter_at current cs) then find_chapter place 0 cs else current)
    else elim (chapter_at current cs) [ none ↦ pos 0 | some c ↦ current ]

unfoldable pub shift_by : ℤ → ℤ → ℤ
shift_by shift time = if not (time == no_pts) then time +ℤ shift else time

module _ {S : Type 0} where
  unfoldable pub in_chapter : AvPacket → ParserFf S → AvPacket × ParserFf S
  unfolding next_chapter chapter_at shift_by
  in_chapter pkt p =
      let key =
        if contains pkt.stream_index p.chapters
        then pkt.stream_index
        else p.default_chapter_list_index in
      let cs : List ChapterVob = elim (lookup key p.chapters) [ none ↦ [] | some cs ↦ cs ] in
      let current : ℤ = elim (lookup key p.current_chapter) [ none ↦ pos 0 | some c ↦ c ] in
      let now = next_chapter pkt.place current cs in
      (
        elim (chapter_at now cs) [
          | none ↦ pkt
          | some c ↦ record pkt {
            pts = shift_by c.time_shift pkt.pts;
            dts = shift_by c.time_shift pkt.dts;
          }
        ],
        record p {
          chapters = insert key cs p.chapters;
          current_chapter = insert key now p.current_chapter;
        },
      )

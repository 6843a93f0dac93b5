-- ===== src/Examples/Listings.antt =====
-- The parser's theorems at a small listing.
use snapshot_fs.Prelude.{
  ℕ, ◌≡◌, refl, true, false, Option, some, none, List, [], ◌∷◌, pos, Text, codes,
}
use snapshot_fs.Model.Message.{Message}
use snapshot_fs.Parser.Timestamps.{ZoneInfo, Ambiguous}
use snapshot_fs.Parser.Windows.Grammar.{DateFormat}
use snapshot_fs.Parser.Windows.State.{section_state}
use snapshot_fs.Parser.Windows.Handlers.{ParserState, parser_state}
use snapshot_fs.Parser.Windows.Machine.{WindowsDirParser, parse_lines, finish}
use snapshot_fs.Parser.Windows.Machine.Totals.{Counted, parse_lines-Counted}
use snapshot_fs.Parser.Windows.Machine.Complete.{IsClosable, finish_complete}
use snapshot_fs.Examples.{noon}

-- A zone without changes of offset, at one time.
abbrev a_zone : ZoneInfo
a_zone = record {
  key = codes "UTC";
  offset = λ t fold. pos 0;
  instant = λ t fold. some (pos 0);
  local = λ i. some noon;
}

abbrev a_parser : WindowsDirParser
a_parser = record { date_format = DateFormat.mdy; zone = a_zone; ambiguous_time = Ambiguous.reject }

abbrev a_listing : List (ℕ × Text)
a_listing =
    (1, codes " Directory of C:\\")
    ∷ (2, codes "03/09/2024  12:00 PM                 5 a.txt")
    ∷ (3, codes "               1 File(s)              5 bytes")
    ∷ (4, codes "               0 Dir(s)      1,000 bytes free")
    ∷ (5, codes "     Total Files Listed:")
    ∷ (6, codes "               1 File(s)              5 bytes")
    ∷ (7, codes "               0 Dir(s)      1,000 bytes free")
    ∷ []

parse_lines-Counted_example :
    Counted parser_state
      (parse_lines a_parser a_listing parser_state).0
      (parse_lines a_parser a_listing parser_state).1
parse_lines-Counted_example = parse_lines-Counted a_parser a_listing parser_state

-- What the listing leaves when it is read.
abbrev at_end : ParserState
at_end = record parser_state {
  section = record section_state {
    line = some (pos 1);
    files = 1;
    size = 5;
    file_summary = true;
    dir_summary = true;
    reported_files = 1;
    reported_size = 5;
    had_entries = true;
    mountable = true;
  };
  aggregate = record { active = true; file_summary = true; dir_summary = true };
  total_files = 1;
  total_size = 5;
  saw_section = true;
}

at_end_clean : (finish none at_end).has_errors ≡ false
unfolding finish parser_state section_state
at_end_clean = refl

finish_complete_example :
    (◌≡◌ {A = Option (Message × ℕ)} none none)
    × (at_end.saw_section ≡ true)
    × ((at_end.aggregate.active ≡ true)
        × (at_end.aggregate.file_summary ≡ true)
        × (at_end.aggregate.dir_summary ≡ true))
    × IsClosable at_end.section.path at_end.section
    × (at_end.diagnostics.has_errors ≡ false)
finish_complete_example = finish_complete none at_end at_end_clean

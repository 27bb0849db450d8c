-- ===== src/Text/Lines.antt =====
-- `str::lines` and `str::split_whitespace`.
use esp_wave_rider.Base.{◌≡◌, refl, Bool, false, not, ◌&&◌, List, [], ◌∷◌, ◌==◌, if◌then◌else◌}
use esp_wave_rider.Text.{Text, codes, is_empty, is_whitespace, split, cons_head}

-- A carriage return before a line feed belongs to the line's end.
unfoldable pub strip_cr : Text → Text
strip_cr [] = []
strip_cr (c ∷ s) = if is_empty s && c == 13 then [] else c ∷ strip_cr s

-- The parts between line feeds; the last one is a line only if it is not empty.
unfoldable pub lines_of : List Text → List Text
lines_of [] = []
lines_of (last ∷ []) = if is_empty last then [] else last ∷ []
lines_of (line ∷ next ∷ parts) = strip_cr line ∷ lines_of (next ∷ parts)

unfoldable pub lines : Text → List Text
lines text = lines_of (split text 10)

abbrev pub starts_word : Text → Bool
starts_word [] = false
starts_word (c ∷ s) = not (is_whitespace c)

unfoldable pub split_whitespace : Text → List Text
split_whitespace [] = []
split_whitespace (c ∷ s) =
    let words = split_whitespace s in
    if is_whitespace c then words else if starts_word s then cons_head c words else (c ∷ []) ∷ words

reads_lines :
    lines (codes "GET / HTTP/1.1\r\nHost: a\n\nb\r")
    ≡ codes "GET / HTTP/1.1" ∷ codes "Host: a" ∷ [] ∷ codes "b\r" ∷ []
unfolding lines lines_of strip_cr split
reads_lines = refl

reads_words :
    split_whitespace (codes "  GET\t/api  x ") ≡ codes "GET" ∷ codes "/api" ∷ codes "x" ∷ []
unfolding split_whitespace is_whitespace
reads_words = refl

-- ===== src/Web/Build/Text.antt =====
-- The parts of regular expressions that the rules of both webpack.config.js use, on texts.
use Prim.Native.Char.{Char, code}
use Prim.Native.String.{String, [], ◌∷◌}
use frp.Prelude.{◌==◌, Bool, true, false, ◌&&◌, ◌||◌, not, if◌then◌else◌, Option, none, some}

-- What follows the first text in the second, if that begins with it.
unfoldable pub after : String → String → Option String
after [] t = some t
after (c ∷ s) [] = none
after (c ∷ s) (d ∷ t) = let rest = after s t in if code c == code d then rest else none

abbrev pub is_end : String → Bool
is_end [] = true
is_end (c ∷ t) = false

-- A character that `.` matches: none that ends a line.
abbrev pub is_dot : Char → Bool
is_dot c = not (code c == 10) && not (code c == 13) && not (code c == 8232) && not (code c == 8233)

abbrev pub all_dots : String → Bool
all_dots [] = true
all_dots (c ∷ t) = let rest = all_dots t in is_dot c && rest

-- (\?.+)$, at the beginning
abbrev pub is_query : String → Bool
is_query [] = false
is_query (c ∷ t) = code c == 63 && not (is_end t) && all_dots t

-- Whether a test holds of the rest of a text from some place on.
unfoldable pub somewhere : (String → Bool) → String → Bool
somewhere p [] = p []
somewhere p (c ∷ t) = let rest = somewhere p t in p (c ∷ t) || rest

abbrev pub has_query : String → Bool
has_query t = somewhere is_query t

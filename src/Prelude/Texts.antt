-- ===== src/Prelude/Texts.antt =====
-- Texts. A JavaScript string is a native `String`; positions count code points, which are the
-- string's own units for every letter of the program's patterns and messages.
use Prim.Native.Nat.{ℕ, zero, suc, ◌/◌, ◌%◌}
use Prim.Native.Char.{code}
use Prim.Native.String.{String, ◌++◌}
use mathlib.Core.Path.{◌≡◌, refl}
use mathlib.Core.Bool.{Bool, true, false, not, ◌&&◌, ◌||◌}
use mathlib.Core.Option.{Option, none, some}
use mathlib.Core.List.{List, [], ◌∷◌}
use zolo.Prelude.Tests.{nat_eq, ◌==◌, ltb, leb, if◌then◌else◌}

-- A template literal: its parts, joined.
abbrev pub template : List String → String
template [] = ""
template (s ∷ parts) = s ++ template parts

-- `parts.join(sep)`
abbrev pub join : String → List String → String
join sep [] = ""
join sep (s ∷ []) = s
join sep (s ∷ t ∷ parts) = s ++ (sep ++ join sep (t ∷ parts))

-- `text.startsWith(prefix)`
unfoldable pub starts : String → String → Bool
starts String.[] s = true
starts (String.◌∷◌ c p) String.[] = false
starts (String.◌∷◌ c p) (String.◌∷◌ d s) = code c == code d && starts p s

-- `text.includes(part)`, the part first.
unfoldable pub includes : String → String → Bool
unfolding starts
includes part String.[] = starts part String.[]
includes part (String.◌∷◌ c s) = starts part (String.◌∷◌ c s) || includes part s

-- `text.slice(0, n)`
unfoldable pub text_take : ℕ → String → String
text_take zero s = ""
text_take (suc n) String.[] = ""
text_take (suc n) (String.◌∷◌ c s) = String.◌∷◌ c (text_take n s)

-- `text.slice(n)`
unfoldable pub text_drop : ℕ → String → String
text_drop zero s = s
text_drop (suc n) String.[] = ""
text_drop (suc n) (String.◌∷◌ c s) = text_drop n s

unfoldable pub text_length : String → ℕ
text_length String.[] = 0
text_length (String.◌∷◌ c s) = suc (text_length s)

-- The part of a text before the first separator, and what follows the separator.
break_at : String → String → String × Option String
unfolding starts text_drop text_length
break_at sep String.[] = ("", none)
break_at sep (String.◌∷◌ c s) =
    let rest = break_at sep s in
    if starts sep (String.◌∷◌ c s)
    then ("", some (text_drop (text_length sep) (String.◌∷◌ c s)))
    else (String.◌∷◌ c rest.0, rest.1)

pieces : ℕ → String → String → List String
unfolding break_at
pieces zero sep s = s ∷ []
pieces (suc n) sep s =
    let (part, behind) = break_at sep s in
    elim behind [ none ↦ part ∷ [] | some rest ↦ part ∷ pieces n sep rest ]

-- `text.split(sep)` at a separator that is not empty: a part is shorter than the text, so the
-- text's length is enough fuel.
unfoldable pub split : String → String → List String
unfolding pieces text_length
split sep s = pieces (text_length s) sep s

-- `text.replace(/class/g, "")` for the characters that fail the test.
unfoldable pub keep_chars : (ℕ → Bool) → String → String
keep_chars p String.[] = ""
keep_chars p (String.◌∷◌ c s) =
    let rest = keep_chars p s in if p (code c) then String.◌∷◌ c rest else rest

unfoldable pub all_chars : (ℕ → Bool) → String → Bool
all_chars p String.[] = true
all_chars p (String.◌∷◌ c s) = p (code c) && all_chars p s

-- `\d`
abbrev pub is_digit : ℕ → Bool
is_digit c = leb b'0' c && leb c b'9'

-- `\s`
unfoldable pub is_space : ℕ → Bool
is_space c =
    leb 9 c && leb c 13
    || c == 32
    || c == 160
    || c == 5760
    || leb 8192 c && leb c 8202
    || c == 8232
    || c == 8233
    || c == 8239
    || c == 8287
    || c == 12288
    || c == 65279

-- A text that is not empty: the truth of a string.
abbrev pub nonempty : String → Bool
nonempty String.[] = false
nonempty (String.◌∷◌ _ _) = true

trim_start : String → String
unfolding is_space
trim_start String.[] = ""
trim_start (String.◌∷◌ c s) =
    let rest = trim_start s in if is_space (code c) then rest else String.◌∷◌ c s

trim_end : String → String
unfolding is_space
trim_end String.[] = ""
trim_end (String.◌∷◌ c s) =
    let rest = trim_end s in
    if is_space (code c) && not (nonempty rest) then "" else String.◌∷◌ c rest

-- `text.trim()`
unfoldable pub trim : String → String
unfolding trim_start trim_end
trim s = trim_end (trim_start s)

-- The truth of a nullable string.
abbrev pub filled : Option String → Bool
filled none = false
filled (some s) = nonempty s

-- A nullable string in a condition: the empty text counts as none.
abbrev pub truthy : Option String → Option String
truthy none = none
truthy (some s) = if nonempty s then some s else none

-- The text of a nullable string, `""` for null.
abbrev pub text_of : Option String → String
text_of none = ""
text_of (some s) = s

abbrev digit : ℕ → String
digit zero = "0"
digit (suc zero) = "1"
digit (suc (suc zero)) = "2"
digit (suc (suc (suc zero))) = "3"
digit (suc (suc (suc (suc zero)))) = "4"
digit (suc (suc (suc (suc (suc zero))))) = "5"
digit (suc (suc (suc (suc (suc (suc zero)))))) = "6"
digit (suc (suc (suc (suc (suc (suc (suc zero))))))) = "7"
digit (suc (suc (suc (suc (suc (suc (suc (suc zero)))))))) = "8"
digit _ = "9"

-- The rounds never reach 0: a number is above its count of digits.
show_from : ℕ → ℕ → String → String
show_from zero n acc = acc
show_from (suc f) n acc =
    let acc' = digit (n % 10) ++ acc in
    let more = show_from f (n / 10) acc' in if ltb n 10 then acc' else more

-- `${n}`
unfoldable pub show : ℕ → String
unfolding show_from
show n = show_from (suc n) n ""

-- A number with at least two digits, and with at least four.
unfoldable pub show_two : ℕ → String
unfolding show
show_two n = if ltb n 10 then "0" ++ show n else show n

unfoldable pub show_four : ℕ → String
unfolding show show_two
show_four n = if ltb n 100 then "00" ++ show_two n else if ltb n 1000 then "0" ++ show n else show n

split_test : split ", " "a, b, , c" ≡ "a" ∷ "b" ∷ "" ∷ "c" ∷ []
unfolding split
split_test = refl

show_test : show 20260910 ≡ "20260910"
unfolding show
show_test = refl

trim_test : trim "  a b " ≡ "a b"
unfolding trim
trim_test = refl

includes_test :
    includes "\u{5e9}\u{5d0}\u{5df}" "\u{5d1}\u{5d9}\u{5ea} \u{5e9}\u{5d0}\u{5df} 9" ≡ true
unfolding includes
includes_test = refl

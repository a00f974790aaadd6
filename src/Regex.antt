-- ===== src/Regex.antt =====
-- JavaScript's regular expressions, as far as the program's patterns use them: the language's
-- `RegExp.test` and `String.match`, over the syntax of the patterns.
-- A position is the character before it, if there is one, and the text that follows.
use zolo.Prelude.{
  ℕ, zero, suc, ◌+◌, ◌-◌, String, code, ◌≡◌, refl, Bool, true, false, not, xor, ◌&&◌, ◌||◌, Option,
  none, some, List, [], ◌∷◌, nat_eq, ◌==◌, leb, if◌then◌else◌, text_length, text_take, nonempty,
  is_some, is_none, template, is_digit, is_space,
}

pub data Regex : Type 0 where
  empty : Regex
  start finish boundary : Regex  -- `^`, `$` and `\b`
  word : String → Regex
  class : (ℕ → Bool) → Regex
  seq alt : Regex → Regex → Regex
  opt star : Regex → Regex
  ahead not_ahead : Regex → Regex  -- `(?=r)` and `(?!r)`
  word_i : String → Regex  -- a word under the flag `i`

-- Simple case folding of the Latin and the Cyrillic capitals, the alphabets under a flag `i`.
abbrev fold : ℕ → ℕ
fold c = if leb b'A' c && leb c b'Z' || leb 1040 c && leb c 1071 then c + 32 else c

abbrev is_word : Option ℕ → Bool
is_word none = false
is_word (some c) = leb b'a' c && leb c b'z' || leb b'A' c && leb c b'Z' || is_digit c || c == b'_'

abbrev next : String → Option ℕ
next String.[] = none
next (String.◌∷◌ c _) = some (code c)

-- What follows a match: it returns the text that the whole match leaves.
abbrev Next : Type 0
Next = Option ℕ → String → Option String

run_word : (ℕ → ℕ) → String → Option ℕ → String → Next → Option String
run_word f String.[] p s k = k p s
run_word f (String.◌∷◌ c w) p String.[] k = none
run_word f (String.◌∷◌ c w) p (String.◌∷◌ d s) k =
    if f (code c) == f (code d) then run_word f w (some (code d)) s k else none

-- Greedy. An iteration that consumes nothing leads nowhere new, so the length of the text is
-- enough fuel.
run_star : (Option ℕ → String → Next → Option String) → ℕ → Option ℕ → String → Next → Option String
run_star step zero p s k = k p s
run_star step (suc n) p s k = elim (step p s (λ p' s'. run_star step n p' s' k)) [
  | some t ↦ some t
  | none ↦ k p s
]

-- The backtracking matcher: what the first match in JavaScript's order leaves.
run : Regex → Option ℕ → String → Next → Option String
unfolding run_word run_star text_length is_space xor
run empty p s k = k p s
run start p s k = if is_none p then k p s else none
run finish p s k = if nonempty s then none else k p s
run boundary p s k = if xor (is_word p) (is_word (next s)) then k p s else none
run (word w) p s k = run_word (λ c. c) w p s k
run (class f) p String.[] k = none
run (class f) p (String.◌∷◌ c s) k = if f (code c) then k (some (code c)) s else none
run (seq r t) p s k = run r p s (λ p' s'. run t p' s' k)
run (alt r t) p s k = elim (run r p s k) [ some rest ↦ some rest | none ↦ run t p s k ]
run (opt r) p s k = elim (run r p s k) [ some rest ↦ some rest | none ↦ k p s ]
run (star r) p s k = run_star (run r) (text_length s) p s k
run (ahead r) p s k = elim (run r p s (λ _ t. some t)) [ some _ ↦ k p s | none ↦ none ]
run (not_ahead r) p s k = elim (run r p s (λ _ t. some t)) [ some _ ↦ none | none ↦ k p s ]
run (word_i w) p s k = run_word fold w p s k

-- The first match: the text before it, the text at it, and the text after it.
pub record Match : Type 0 where
  pub before : String
  pub here : String
  pub after : String

exec_from : Regex → String → Option ℕ → String → Option Match
unfolding run text_take text_length
exec_from r before p String.[] = elim (run r p "" (λ _ t. some t)) [
  | some t ↦ some (record { before = before; here = ""; after = "" })
  | none ↦ none
]
exec_from r before p (String.◌∷◌ c s) = elim (run r p (String.◌∷◌ c s) (λ _ t. some t)) [
  | some t ↦ some (record {
    before = before;
    here = text_take (suc (text_length s) - text_length t) (String.◌∷◌ c s);
    after = t;
  })
  | none ↦ exec_from r (template (before ∷ String.◌∷◌ c "" ∷ [])) (some (code c)) s
]

-- `text.match(r)`
unfoldable pub exec : Regex → String → Option Match
unfolding exec_from
exec r s = exec_from r "" none s

abbrev last_code : Option ℕ → String → Option ℕ
last_code p String.[] = p
last_code p (String.◌∷◌ c s) = last_code (some (code c)) s

-- A match of the program's patterns is not empty, so the length of the text is enough fuel.
match_all_from : ℕ → Regex → Option ℕ → String → List Match
unfolding exec_from
match_all_from zero r p s = []
match_all_from (suc n) r p s = elim (exec_from r "" p s) [
  | none ↦ []
  | some m ↦ m ∷ match_all_from n r (last_code (last_code p m.before) m.here) m.after
]

-- `text.matchAll(r)`
unfoldable pub match_all : Regex → String → List Match
unfolding match_all_from text_length
match_all r s = match_all_from (text_length s) r none s

replace_from : ℕ → Regex → String → Option ℕ → String → String
unfolding exec_from
replace_from zero r by p s = s
replace_from (suc n) r by p s = elim (exec_from r "" p s) [
  | none ↦ s
  | some m ↦
      template
        (m.before ∷ by ∷ replace_from n r by (last_code (last_code p m.before) m.here) m.after ∷ [])
]

-- `text.replace(r, by)` under the flag `g`.
unfoldable pub replace_all : Regex → String → String → String
unfolding replace_from text_length
replace_all r by s = replace_from (text_length s) r by none s

search_from : Regex → Option ℕ → String → Bool
unfolding run
search_from r p String.[] = is_some (run r p "" (λ _ t. some t))
search_from r p (String.◌∷◌ c s) = elim (run r p (String.◌∷◌ c s) (λ _ t. some t)) [
  | some t ↦ true
  | none ↦ search_from r (some (code c)) s
]

-- `r.test(text)`
unfoldable pub test : Regex → String → Bool
unfolding search_from
test r s = search_from r none s

abbrev pub seqs : List Regex → Regex
seqs [] = empty
seqs (r ∷ []) = r
seqs (r ∷ t ∷ rs) = seq r (seqs (t ∷ rs))

-- A choice between patterns, at least one.
abbrev pub alts : Regex → List Regex → Regex
alts r [] = r
alts r (t ∷ rs) = alt r (alts t rs)

-- A choice between words, at least one.
abbrev pub words : String → List String → Regex
words w [] = word w
words w (v ∷ ws) = alt (word w) (words v ws)

abbrev pub words_i : String → List String → Regex
words_i w [] = word_i w
words_i w (v ∷ ws) = alt (word_i w) (words_i v ws)

abbrev pub plus : Regex → Regex
plus r = seq r (star r)

-- `r{0,n}` and `r{m,n}` as `times m r` before `up_to (n - m) r`.
abbrev pub up_to : ℕ → Regex → Regex
up_to zero r = empty
up_to (suc n) r = opt (seq r (up_to n r))

abbrev pub times : ℕ → Regex → Regex
times zero r = empty
times (suc n) r = seq r (times n r)

-- `[…]` with the characters of a text, and `[^…]`.
abbrev member : String → ℕ → Bool
member String.[] c = false
member (String.◌∷◌ d s) c = code d == c || member s c

abbrev pub one_of : String → Regex
one_of s = class (member s)

abbrev pub none_of : String → Regex
none_of s = class (λ c. not (member s c))

-- `[a-b]` by code points, `\d`, `\s`, `\S`, and `.`
abbrev pub between : ℕ → ℕ → Regex
between a b = class (λ c. leb a c && leb c b)

abbrev pub digit_char : Regex
digit_char = class is_digit

abbrev pub space : Regex
space = class is_space

abbrev pub not_space : Regex
not_space = class (λ c. not (is_space c))

abbrev pub any_char : Regex
any_char = class (λ c. not (c == 10 || c == 13 || c == 8232 || c == 8233))

-- The Hebrew letters, and what is none.
abbrev pub is_hebrew_letter : ℕ → Bool
is_hebrew_letter c = leb 1488 c && leb c 1514

abbrev pub hebrew_letter : Regex
hebrew_letter = class is_hebrew_letter

abbrev pub not_hebrew_letter : Regex
not_hebrew_letter = class (λ c. not (is_hebrew_letter c))

test_bounds : test (seqs (boundary ∷ word_i "donate" ∷ boundary ∷ [])) "please Donate." ≡ true
unfolding test
test_bounds = refl

test_whole : test (seqs (start ∷ plus digit_char ∷ finish ∷ [])) "12a" ≡ false
unfolding test
test_whole = refl

-- ===== src/Policies/Phone.antt =====
-- src/domain/policies.ts: `canonicalPhone`.
pub mod Laws
use zolo.Prelude.{
  ℕ, suc, String, code, Bool, true, false, ◌&&◌, [], ◌∷◌, nat_eq, ◌==◌, leb, if◌then◌else◌, Failure,
  error, Result, ok, err, ensure, ◌>>=◌, ◌>>◌, starts, includes, text_drop, text_length, keep_chars,
  all_chars, is_digit, is_space, ◌||◌, not, ◌≡◌, refl,
}
use zolo.Regex.{Regex, start, finish, word, class, seq, opt, alt, plus, test}

-- `[+\d\s().-]`
phone_char : ℕ → Bool
unfolding is_space
phone_char c =
    is_digit c || is_space c || c == b'+' || c == b'(' || c == b')' || c == b'.' || c == b'-'

-- `/^[+\d\s().-]+(?:@c\.us|@s\.whatsapp\.net)?$/`
phone_shape : Regex
unfolding phone_char
phone_shape =
    seq start (
      seq (plus (class phone_char))
        (seq (opt (alt (word "@c.us") (word "@s.whatsapp.net"))) finish))

-- `value.split("@")[0]`
unfoldable pub before_at : String → String
before_at String.[] = ""
before_at (String.◌∷◌ c s) =
    let rest = before_at s in if code c == b'@' then "" else String.◌∷◌ c rest

-- The country code, and then one leading zero, are dropped.
local_part : String → String
unfolding starts text_drop
local_part s =
    let t =
      if starts "00972" s then text_drop 5 s else if starts "972" s then text_drop 3 s else s in
    if starts "0" t then text_drop 1 t else t

-- `/^[2-9]\d{7,8}$/`
unfoldable pub is_canonical : String → Bool
unfolding all_chars text_length
is_canonical String.[] = false
is_canonical (String.◌∷◌ c s) =
    leb b'2' (code c)
    && leb (code c) b'9'
    && all_chars is_digit s
    && (text_length s == 7 || text_length s == 8)

unfoldable pub canonical_phone : String → Result String
unfolding phone_shape before_at local_part is_canonical includes keep_chars test
canonical_phone value = do
  ensure (not (includes "@lid" value)) (error "lid_is_not_phone")
  ensure (test phone_shape value) (error "invalid_phone")
  let s = local_part (keep_chars is_digit (before_at value))
  ensure (is_canonical s) (error "invalid_phone")
  ok s

international : canonical_phone "+972 58-415-2101@c.us" ≡ ok "584152101"
unfolding canonical_phone
international = refl

refused :
    (canonical_phone "123@lid" ≡ err (error "lid_is_not_phone"))
    × (canonical_phone "0123" ≡ err (error "invalid_phone"))
unfolding canonical_phone
refused = (refl, refl)

-- A Sharon land line loses three digits of its own when it is canonicalised twice.
twice :
    (canonical_phone "09-721-2345" ≡ ok "97212345")
    × (canonical_phone "97212345" ≡ err (error "invalid_phone"))
unfolding canonical_phone
twice = (refl, refl)

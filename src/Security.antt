-- ===== src/Security.antt =====
-- src/application/security.ts: what the administrator's service hides before it shows a value.
-- A value is what JSON can write, with integers for the numbers.
pub mod Redaction
use zolo.Prelude.{ℤ, String, Bool, true, false, not, List, [], ◌∷◌, if◌then◌else◌, ◌≡◌, refl}
use zolo.Regex.{Regex, word_i, words_i, alts, seqs, opt, one_of, test}

mutual
  pub data Value : Type 0 where
    nothing : Value
    truth : Bool → Value
    number : ℤ → Value
    text : String → Value
    array : Elements → Value
    object : Entries → Value

  pub data Elements : Type 0 where
    no_element : Elements
    element : Value → Elements → Elements

  -- `Object.entries`
  pub data Entries : Type 0 where
    no_entry : Entries
    entry : String → Value → Entries → Entries

-- `SECRET_KEY`
abbrev secret_key : Regex
secret_key =
    alts (words_i "token" ("secret" ∷ "password" ∷ "authorization" ∷ "cookie" ∷ "credential" ∷ []))
      (seqs (word_i "api" ∷ opt (one_of "_-") ∷ word_i "key" ∷ [])
        ∷ seqs (word_i "private" ∷ opt (one_of "_-") ∷ word_i "key" ∷ [])
        ∷ [])

unfoldable pub is_secret : String → Bool
unfolding test
is_secret key = test secret_key key

abbrev pub hidden : Value
hidden = text "[REDACTED]"

-- `redactSecrets(value)`
unfoldable mutual
  unfolding is_secret

  pub redact_secrets : Value → Value
  redact_secrets (array xs) = array (redact_elements xs)
  redact_secrets (object es) = object (redact_entries es)
  redact_secrets v = v

  pub redact_elements : Elements → Elements
  redact_elements no_element = no_element
  redact_elements (element v xs) = element (redact_secrets v) (redact_elements xs)

  -- Of a value whose own keys are not `__proto__`, which the assignment of the source would drop.
  pub redact_entries : Entries → Entries
  redact_entries no_entry = no_entry
  redact_entries (entry key v es) =
      let shown = redact_secrets v in
      entry key (if is_secret key then hidden else shown) (redact_entries es)

test_secret : is_secret "X-Api_Key" ≡ true
unfolding is_secret
test_secret = refl

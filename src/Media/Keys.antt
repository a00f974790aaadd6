-- ===== src/Media/Keys.antt =====
-- src/infrastructure/media.ts: the keys of the stored files, which no temporary name is like.
use Prim.Native.String.{◌++◌}
use text.Mathlib.TextLemmas.{nil-append, cons-append}
use zolo.Prelude.{
  ℕ, String, ◌≡◌, refl, ◌∙◌, ap, sym, subst, Bool, true, false, Option, none, some, List, [], ◌∷◌,
  eq_iff, string_eq, nat_eq, ◌==◌, if◌then◌else◌, any, template, inl, inr, Bool-cases, text_take,
  text_drop, text_length, all_chars,
}
use zolo.Media.{Detected, tmp_name, is_hex, file_ends, is_media_key, stored_as, detect_media}

-- A hexadecimal digest of SHA-256.
pub record IsDigest (s : String) : Type 0 where
  pub long : text_length s ≡ 64
  pub plain : all_chars is_hex s ≡ true

text_take-append : (h s : String) → text_take (text_length h) (h ++ s) ≡ h
unfolding text_take text_length
text_take-append String.[] s = refl
text_take-append (String.◌∷◌ c h) s = rw (cons-append, text_take-append h s) refl

text_drop-append : (h s : String) → text_drop (text_length h) (h ++ s) ≡ s
unfolding text_drop text_length
text_drop-append String.[] s = nil-append s
text_drop-append (String.◌∷◌ c h) s = rw (cons-append, text_drop-append h s) refl

-- The digest and the ending of a key.
pub digest_of : (h s : String) → IsDigest h → text_take 64 (h ++ s) ≡ h
digest_of h s d = rw (← d.long) (text_take-append h s)

end_of : (h s : String) → IsDigest h → text_drop 64 (h ++ s) ≡ s
end_of h s d = rw (← d.long) (text_drop-append h s)

abbrev ends_known : Option Detected → Bool
ends_known none = true
ends_known (some m) = any (λ end. end == template ("." ∷ m.ext ∷ [])) file_ends

ends_known-if :
    (t : Bool) (a b : Option Detected)
    → ends_known (if t then a else b) ≡ (if t then ends_known a else ends_known b)
ends_known-if true a b = refl
ends_known-if false a b = refl

if_true : (t : Bool) → (if t then true else true) ≡ true
if_true true = refl
if_true false = refl

detect_media-ends : (b : List ℕ) → ends_known (detect_media b) ≡ true
unfolding detect_media
detect_media-ends b = simp (ends_known-if, if_true)

key_lem :
    (h s : String)
    → IsDigest h
    → any (λ end. end == s) file_ends ≡ true
    → is_media_key (h ++ s) ≡ true
unfolding is_media_key
key_lem h s d e = rw (digest_of h s d, end_of h s d, d.plain, d.long, e)

tmp_lem : (uuid : String) → is_media_key (tmp_name uuid) ≡ false
unfolding is_media_key text_take all_chars
tmp_lem uuid = rw (cons-append) refl

pub tmp_apart : (key uuid : String) → is_media_key key ≡ true → (tmp_name uuid == key) ≡ false
tmp_apart key uuid e = elim (Bool-cases (tmp_name uuid == key)) [
  | inl same ↦
      same ∙ (sym e ∙ (sym (ap is_media_key ((eq_iff (tmp_name uuid) key).0 same)) ∙ tmp_lem uuid))
  | inr other ↦ other
]

module _ (hash : List ℕ → String) (digests : (b : List ℕ) → IsDigest (hash b)) where
  pub stored_as-known :
      (bytes : List ℕ) (m : Detected)
      → detect_media bytes ≡ some m
      → is_media_key (stored_as hash bytes m).key ≡ true
  stored_as-known bytes m e =
      key_lem (hash bytes) (template ("." ∷ m.ext ∷ [])) (digests bytes)
        (subst (λ o. ends_known o ≡ true) e (detect_media-ends bytes))

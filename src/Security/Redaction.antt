-- ===== src/Security/Redaction.antt =====
-- src/application/security.ts: no value stands under a secret key, at any depth, and what holds no
-- secret is shown as it is.
use zolo.Prelude.{true, false, ◌≡◌, refl, ap, subst, Bool-cases, ◌⊎◌, inl, inr, ◌↔◌}
use zolo.Security.{
  Value, nothing, truth, number, text, array, object, Elements, no_element, element, Entries,
  no_entry, entry, is_secret, hidden, redact_secrets, redact_elements, redact_entries,
}

-- Every secret key of the value, at whatever depth, holds the replacement.
unfoldable mutual
  pub IsClean : Value → Type 0
  IsClean (array xs) = AreClean xs
  IsClean (object es) = HidesSecrets es
  IsClean v = Unit

  pub AreClean : Elements → Type 0
  AreClean no_element = Unit
  AreClean (element v xs) = IsClean v × AreClean xs

  pub HidesSecrets : Entries → Type 0
  HidesSecrets no_entry = Unit
  HidesSecrets (entry key v es) =
      (((is_secret key ≡ true) × (v ≡ hidden)) ⊎ ((is_secret key ≡ false) × IsClean v))
      × HidesSecrets es

mutual
  unfolding redact_secrets IsClean

  redacts : (v : Value) → IsClean (redact_secrets v)
  redacts (array xs) = redacts_elements xs
  redacts (object es) = redacts_entries es
  redacts nothing = tt
  redacts (truth b) = tt
  redacts (number n) = tt
  redacts (text s) = tt

  redacts_elements : (xs : Elements) → AreClean (redact_elements xs)
  redacts_elements no_element = tt
  redacts_elements (element v xs) = (redacts v, redacts_elements xs)

  redacts_entries : (es : Entries) → HidesSecrets (redact_entries es)
  redacts_entries no_entry = tt
  redacts_entries (entry key v es) = elim (Bool-cases (is_secret key)) [
    | inl secret ↦ rw secret (inl (refl, refl), redacts_entries es)
    | inr open_key ↦ rw open_key (inr (refl, redacts v), redacts_entries es)
  ]

mutual
  unfolding redact_secrets IsClean

  keeps : (v : Value) → IsClean v → redact_secrets v ≡ v
  keeps (array xs) h = ap array (keeps_elements xs h)
  keeps (object es) h = ap object (keeps_entries es h)
  keeps nothing h = refl
  keeps (truth b) h = refl
  keeps (number n) h = refl
  keeps (text s) h = refl

  keeps_elements : (xs : Elements) → AreClean xs → redact_elements xs ≡ xs
  keeps_elements no_element h = refl
  keeps_elements (element v xs) h = rw (keeps v h.0, keeps_elements xs h.1) refl

  keeps_entries : (es : Entries) → HidesSecrets es → redact_entries es ≡ es
  keeps_entries no_entry h = refl
  keeps_entries (entry key v es) (inl (secret, e), h) = rw (secret, keeps_entries es h, e) refl
  keeps_entries (entry key v es) (inr (open_key, e), h) =
      rw (open_key, keeps_entries es h, keeps v e) refl

-- In what redactSecrets returns, each secret key, however deep it stands in objects and arrays,
-- holds the replacement, and a value is returned as it is exactly when that is true of it already.
pub redact_secrets-IsClean :
    (v : Value) → IsClean (redact_secrets v) × (IsClean v ↔ (redact_secrets v ≡ v))
redact_secrets-IsClean v = (redacts v, (keeps v, λ e. subst IsClean e (redacts v)))

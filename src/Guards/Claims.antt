-- ===== src/Guards/Claims.antt =====
-- src/domain/ai-guards.ts: a reworded reply claims nothing that the committed one does not.
use zolo.Prelude.{
  String, Bool, true, false, not, ◌||◌, Option, List, [], ◌∷◌, ◌≡◌, refl, subst, Bool-cases, ◌⊎◌,
  inl, inr, string_eq, ◌==◌, eq_sound, is_empty, filter, All, any-find, find_holds, find-All,
  filter-All, nonempty, text_of, includes, trim,
}
use zolo.Guards.{
  claim_markers, markers_in, has_marker, extra_claims, drops_required_phrase, apply_claim_guard,
}

or_false : (a b : Bool) → (not a || b) ≡ false → (a ≡ true) × (b ≡ false)
or_false true b h = (refl, h)
or_false false b h = absurd (cc)

filter-is_empty :
    (p : String → Bool) (xs : List String)
    → is_empty (filter (λ x. not (p x)) xs) ≡ true
    → All (λ x. p x ≡ true) xs
filter-is_empty p [] h = tt
filter-is_empty p (x ∷ xs) h = elim (Bool-cases (p x)) [
  | inl holds ↦ (holds, filter-is_empty p xs (rw holds at h))
  | inr fails ↦ absurd (let k = rw fails at h in cc)
]

-- A marker that is among those of a text stands in it.
has_marker-includes :
    (text marker : String)
    → has_marker (markers_in text) marker ≡ true
    → includes marker text ≡ true
unfolding markers_in
has_marker-includes text marker h =
    let (m, e) = any-find (λ m. m == marker) (markers_in text) h in
    let same = eq_sound m marker (find_holds (λ m. m == marker) (markers_in text) m e) in
    subst (λ x. includes x text ≡ true) same
      (find-All (λ x. includes x text ≡ true) (λ m. m == marker) (markers_in text) m
        (filter-All (λ x. includes x text) claim_markers) e)

All-imply :
    (P Q : String → Type 0) (xs : List String) → ((x : String) → P x → Q x) → All P xs → All Q xs
All-imply P Q [] f h = tt
All-imply P Q (x ∷ xs) f h = (f x h.0, All-imply P Q xs f h.1)

own_claims : (text : String) → All (λ m. includes m text ≡ true) (markers_in text)
unfolding markers_in
own_claims text = filter-All (λ x. includes x text) claim_markers

apply_claim_guard-includes :
    (canonical : String) (phrased : Option String)
    → All (λ m. includes m canonical ≡ true) (markers_in (apply_claim_guard canonical phrased).text)
unfolding apply_claim_guard extra_claims
apply_claim_guard-includes canonical phrased =
    let candidate = trim (text_of phrased) in
    elim (Bool-cases (nonempty candidate)) [
      | inr silent ↦ rw (silent, apply_claim_guard) (own_claims canonical)
      | inl given ↦
          elim (Bool-cases (
            not (is_empty (extra_claims canonical candidate))
            || drops_required_phrase canonical candidate)) [
              | inl bad ↦ rw (given, bad, apply_claim_guard) (own_claims canonical)
              | inr fine ↦
                  rw (given, fine, apply_claim_guard)
                    (All-imply _ _ (markers_in candidate) (has_marker-includes canonical) (
                      filter-is_empty (has_marker (markers_in canonical)) (markers_in candidate)
                        (or_false _ _ fine).0))
            ]
    ]

apply_claim_guard-drops_required_phrase :
    (canonical : String) (phrased : Option String)
    → ((apply_claim_guard canonical phrased).text ≡ canonical)
      ⊎ (drops_required_phrase canonical (apply_claim_guard canonical phrased).text ≡ false)
unfolding apply_claim_guard
apply_claim_guard-drops_required_phrase canonical phrased =
    let candidate = trim (text_of phrased) in
    elim (Bool-cases (nonempty candidate)) [
      | inr silent ↦ rw (silent, apply_claim_guard) (inl refl)
      | inl given ↦
          elim (Bool-cases (
            not (is_empty (extra_claims canonical candidate))
            || drops_required_phrase canonical candidate)) [
              | inl bad ↦ rw (given, bad, apply_claim_guard) (inl refl)
              | inr fine ↦ rw (given, fine, apply_claim_guard) (inr (or_false _ _ fine).1)
            ]
    ]

-- Whatever the language model wrote, each claim that the reply to the customer makes stands in the
-- reply that was committed, and the reply is either the committed one or keeps its request for a
-- photograph and its question about the condition.
pub apply_claim_guard-claims :
    (canonical : String) (phrased : Option String)
    → All (λ m. includes m canonical ≡ true) (markers_in (apply_claim_guard canonical phrased).text)
      × (((apply_claim_guard canonical phrased).text ≡ canonical)
          ⊎ (drops_required_phrase canonical (apply_claim_guard canonical phrased).text ≡ false))
apply_claim_guard-claims canonical phrased = (
  apply_claim_guard-includes canonical phrased,
  apply_claim_guard-drops_required_phrase canonical phrased,
)

-- ===== src/Policies/Phone/Laws.antt =====
-- src/domain/policies.ts: the phones that `canonicalPhone` returns.
use zolo.Prelude.{
  ℕ, zero, suc, ◌≤◌, String, code, ◌≡◌, refl, ap, ◌∙◌, subst, arith, true, false, ◌||◌, ◌⊎◌, ok,
  ok_injective, Bool-cases, inl, inr, includes, keep_chars, is_digit, all_chars, text_length,
  text_drop, starts, leb, nat_eq, ◌==◌, if◌then◌else◌, and_four,
}
use zolo.Regex.{test}
use zolo.Policies.Phone.{phone_shape, before_at, local_part, is_canonical, canonical_phone}

-- A phone of the country without its leading zero: eight or nine digits, and what is left of the
-- digits of the value in front of its `@` when at most six of them are dropped.
pub record IsNational (value s : String) : Type 0 where
  pub digits : all_chars is_digit s ≡ true
  pub long : (text_length s ≡ 8) ⊎ (text_length s ≡ 9)
  pub first : starts "0" s ≡ false
  pub not_one : starts "1" s ≡ false
  pub dropped : ℕ
  pub few : dropped ≤ 6
  pub rest : s ≡ text_drop dropped (keep_chars is_digit (before_at value))

text_drop-text_drop : (m : ℕ) (s : String) → text_drop 1 (text_drop m s) ≡ text_drop (suc m) s
unfolding text_drop
text_drop-text_drop zero s = refl
text_drop-text_drop (suc m) String.[] = refl
text_drop-text_drop (suc m) (String.◌∷◌ c s) = text_drop-text_drop m s

local_part-drop : (s : String) → (n : ℕ) × (n ≤ 6) × (local_part s ≡ text_drop n s)
unfolding local_part
local_part-drop s =
    let (n, few, e) = country s in
    let t =
      if starts "00972" s then text_drop 5 s else if starts "972" s then text_drop 3 s else s in
    elim (Bool-cases (starts "0" t)) [
      | inl f ↦
          (suc n, omega arith, rw (f, local_part) (ap (text_drop 1) e ∙ text_drop-text_drop n s))
      | inr f ↦ (n, omega arith, rw (f, local_part) e)
    ]
  where
    country :
        (s : String)
        → (n : ℕ) × (n ≤ 5)
          × ((if starts "00972" s
                then text_drop 5 s
                else if starts "972" s
                then text_drop 3 s
                else s)
              ≡ text_drop n s)
    country s = elim (Bool-cases (starts "00972" s)) [
      | inl e ↦ (5, omega arith, rw e refl)
      | inr e ↦ elim (Bool-cases (starts "972" s)) [
        | inl f ↦ (3, omega arith, rw (e, f) refl)
        | inr f ↦ (0, omega arith, rw (e, f) refl)
      ]
    ]

canonical-digits :
    (s : String)
    → is_canonical s ≡ true
    → (all_chars is_digit s ≡ true)
      × ((text_length s ≡ 8) ⊎ (text_length s ≡ 9))
      × (starts "0" s ≡ false)
      × (starts "1" s ≡ false)
unfolding is_canonical all_chars text_length starts
canonical-digits String.[] h = absurd (cc)
canonical-digits (String.◌∷◌ c s) h =
    let (low, high, plain, long) =
      and_four (leb b'2' (code c)) (leb (code c) b'9') (all_chars is_digit s)
        (text_length s == 7 || text_length s == 8) h in
    (ground arith, lengths (text_length s) long, ground arith, ground arith)
  where
    lengths : (n : ℕ) → (n == 7 || n == 8) ≡ true → (suc n ≡ 8) ⊎ (suc n ≡ 9)
    lengths n h = elim (Bool-cases (n == 7)) [
      | inl e ↦ inl (ground arith)
      | inr e ↦ inr (ground arith)
    ]

-- What canonicalPhone returns are eight or nine digits, the first of them from 2 to 9, and they
-- are the last digits of the text before any @, with six digits before them at most.
pub canonical_phone-IsNational :
    (value s : String) → canonical_phone value ≡ ok s → IsNational value s
unfolding canonical_phone
canonical_phone-IsNational value s h = elim (Bool-cases (includes "@lid" value)) [
  | inl lid ↦ absurd (let k = rw (lid, canonical_phone) at h in cc)
  | inr named ↦ elim (Bool-cases (test phone_shape value)) [
    | inr odd ↦ absurd (let k = rw (named, odd, canonical_phone) at h in cc)
    | inl shaped ↦
        let all_digits = keep_chars is_digit (before_at value) in
        let t = local_part all_digits in
        elim (Bool-cases (is_canonical t)) [
          | inr foreign ↦ absurd (let k = rw (named, shaped, foreign, canonical_phone) at h in cc)
          | inl fine ↦
              let (digits, long, first, not_one) = canonical-digits t fine in
              let (n, few, e) = local_part-drop all_digits in
              subst (IsNational value)
                (ok_injective (rw (named, shaped, fine, canonical_phone) at h))
                (record {
                  digits = digits;
                  long = long;
                  first = first;
                  not_one = not_one;
                  dropped = n;
                  few = few;
                  rest = e;
                })
        ]
  ]
]

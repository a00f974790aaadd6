-- ===== src/Store/Regions.antt =====
-- src/infrastructure/store.ts: `region`, what the service decides of a place.
use zolo.Prelude.{
  String, Bool, ◌||◌, Option, none, some, List, [], ◌∷◌, ◌++◌, map, string_eq, ◌==◌, if◌then◌else◌,
  any, filter, nonempty, trim,
}
use zolo.Regex.{
  Regex, start, finish, word, seq, alt, opt, seqs, words, plus, star, one_of, space, digit_char,
  hebrew_letter, exec,
}
use zolo.Policies.Intents.{norm, remove}
use zolo.Store.Tables.{Db, ServiceLocation, Street, Decision, allowed, review}

pub record Region : Type 0 where
  pub name : String
  pub decision : Decision

-- The word for a street, a neighbourhood or a boulevard before its name.
street_prefix : Regex
street_prefix = seqs (
    start
    ∷ alt
        (words "\u{5e8}\u{5d7}\u{5d5}\u{5d1}" (
          "\u{5e9}\u{5db}\u{5d5}\u{5e0}\u{5ea}" ∷ "\u{5e9}\u{5db}\u{5d5}\u{5e0}\u{5d4}"
          ∷ "\u{5e9}\u{5d3}\u{5e8}\u{5d5}\u{5ea}" ∷ []))
        (seq (word "\u{5e9}\u{5d3}") (opt (one_of "\u{5f3}'")))
    ∷ plus space
    ∷ [])

-- The number of a house at the end, with or without a letter.
house_number : Regex
house_number = seqs (plus space ∷ plus digit_char ∷ opt hebrew_letter ∷ star space ∷ finish ∷ [])

-- The towns of the service, by exact name.
allowed_exact : String → Option String
allowed_exact s =
    if s == "\u{5e7}\u{5d9}\u{5d1}\u{5d5}\u{5e5} \u{5d8}\u{5d9}\u{5e8}\u{5ea} \u{5e6}\u{5d1}\u{5d9}"
    then some "\u{5d8}\u{5d9}\u{5e8}\u{5ea} \u{5e6}\u{5d1}\u{5d9}"
    else if any (λ t. s == t)
        ("\u{5d1}\u{5d9}\u{5ea} \u{5e9}\u{5d0}\u{5df}"
          ∷ "\u{5de}\u{5e1}\u{5d9}\u{5dc}\u{5d5}\u{5ea}" ∷ "\u{5d9}\u{5e8}\u{5d3}\u{5e0}\u{5d4}"
          ∷ "\u{5d1}\u{5d9}\u{5ea} \u{5d0}\u{5dc}\u{5e4}\u{5d0}"
          ∷ "\u{5d8}\u{5d9}\u{5e8}\u{5ea} \u{5e6}\u{5d1}\u{5d9}"
          ∷ "\u{5db}\u{5e4}\u{5e8} \u{5e8}\u{5d5}\u{5e4}\u{5d9}\u{5df}"
          ∷ "\u{5de}\u{5d7}\u{5d5}\u{5dc}\u{5d4}" ∷ [])
    then some s
    else none

-- The rows of the query: the service's locations by alias, and the streets of the active data set.
place_rows : Db → List String → List Region
place_rows db names =
    map (λ (l : ServiceLocation). record { name = l.name; decision = l.decision })
      (filter (λ l. any (λ n. any (λ a. n == a) l.aliases) names) db.locations)
    ++ map (λ (s : Street). record { name = s.name; decision = allowed })
        (filter (λ s. any (λ n. n == s.normalized || any (λ a. n == a) s.aliases) names) db.streets)

-- `ORDER BY name LIMIT 1`, by the order of texts of the database.
first_by_name : (String → String → Bool) → List Region → Option Region
first_by_name before [] = none
first_by_name before (r ∷ rs) = elim (first_by_name before rs) [
  | none ↦ some r
  | some best ↦ if before best.name r.name then some best else some r
]

-- `region(c, value)`
unfoldable pub region : (String → String) → (String → String → Bool) → Db → String → Region
unfolding norm exec street_prefix house_number allowed_exact place_rows first_by_name trim
region nfkc before db value =
    let s = norm nfkc value in
    let lookup = trim (remove (exec street_prefix s) s) in
    elim (allowed_exact lookup) [
      | some name ↦ record { name = name; decision = allowed }
      | none ↦
          let shorter = trim (remove (exec house_number lookup) lookup) in
          elim (first_by_name before (place_rows db (filter nonempty (lookup ∷ shorter ∷ [])))) [
            | some r ↦ r
            | none ↦ record { name = s; decision = review }
          ]
    ]

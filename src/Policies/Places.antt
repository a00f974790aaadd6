-- ===== src/Policies/Places.antt =====
-- src/domain/policies.ts: the towns that a text names, `namedOutsideSettlement` and
-- `mentionedAllowedSettlement`.
use zolo.Prelude.{
  ◌-◌, String, Bool, false, not, ◌&&◌, Option, none, some, List, [], ◌∷◌, nat_eq, if◌then◌else◌,
  filled, text_of, includes, text_drop, text_length, template, ◌≡◌, refl,
}
use zolo.Regex.{
  Regex, start, finish, boundary, word, word_i, seq, alt, opt, star, seqs, alts, words, plus,
  one_of, space, between, not_hebrew_letter, ahead, exec, replace_all, test,
}
use zolo.Policies.Intents.{norm, street_phrase}

pub record Place : Type 0 where
  pub name : String
  pub pattern : Regex

-- The word by itself, with or without a preposition.
abbrev alone : Regex → Regex
alone r = seqs (
    alt start not_hebrew_letter
    ∷ opt (one_of "\u{5d1}\u{5de}\u{5dc}")
    ∷ r
    ∷ ahead (alt finish not_hebrew_letter)
    ∷ [])

abbrev two_words : String → String → Regex
two_words a b = seqs (word a ∷ plus space ∷ word b ∷ [])

abbrev english : String → Regex
english w = seqs (boundary ∷ word_i w ∷ boundary ∷ [])

abbrev place : String → Regex → Place
place name pattern = record { name = name; pattern = pattern }

outside_places : List Place
outside_places =
    place "\u{5ea}\u{5dc} \u{5d0}\u{5d1}\u{5d9}\u{5d1}"
      (alone (two_words "\u{5ea}\u{5dc}" "\u{5d0}\u{5d1}\u{5d9}\u{5d1}"))
    ∷ place "\u{5ea}\u{5dc} \u{5d0}\u{5d1}\u{5d9}\u{5d1}"
        (seqs (boundary ∷ word_i "tel" ∷ star space ∷ word_i "aviv" ∷ boundary ∷ []))
    ∷ place "\u{5e8}\u{5d0}\u{5e9}\u{5d5}\u{5df} \u{5dc}\u{5e6}\u{5d9}\u{5d5}\u{5df}"
        (two_words "\u{5e8}\u{5d0}\u{5e9}\u{5d5}\u{5df}" "\u{5dc}\u{5e6}\u{5d9}\u{5d5}\u{5df}")
    ∷ place "\u{5d1}\u{5d0}\u{5e8} \u{5e9}\u{5d1}\u{5e2}"
        (two_words "\u{5d1}\u{5d0}\u{5e8}" "\u{5e9}\u{5d1}\u{5e2}")
    ∷ place "\u{5d9}\u{5e8}\u{5d5}\u{5e9}\u{5dc}\u{5d9}\u{5dd}"
        (alone (word "\u{5d9}\u{5e8}\u{5d5}\u{5e9}\u{5dc}\u{5d9}\u{5dd}"))
    ∷ place "\u{5d9}\u{5e8}\u{5d5}\u{5e9}\u{5dc}\u{5d9}\u{5dd}" (english "jerusalem")
    ∷ place "\u{5d8}\u{5d1}\u{5e8}\u{5d9}\u{5d4}"
        (alone (seq (word "\u{5d8}\u{5d1}\u{5e8}\u{5d9}") (one_of "\u{5d4}\u{5d0}")))
    ∷ place "\u{5d8}\u{5d1}\u{5e8}\u{5d9}\u{5d4}" (english "tiberias")
    ∷ place "\u{5d8}\u{5d1}\u{5e8}\u{5d9}\u{5d4}"
        (seq (word "\u{637}\u{628}\u{631}\u{64a}") (one_of "\u{627}\u{629}"))
    ∷ place "\u{5e2}\u{5e4}\u{5d5}\u{5dc}\u{5d4}"
        (alone (seq (word "\u{5e2}\u{5e4}\u{5d5}\u{5dc}") (one_of "\u{5d4}\u{5d0}")))
    ∷ place "\u{5e2}\u{5e4}\u{5d5}\u{5dc}\u{5d4}" (english "afula")
    ∷ place "\u{5d7}\u{5d9}\u{5e4}\u{5d4}" (alone (word "\u{5d7}\u{5d9}\u{5e4}\u{5d4}"))
    ∷ place "\u{5d7}\u{5d9}\u{5e4}\u{5d4}" (english "haifa")
    ∷ place "\u{5d0}\u{5e9}\u{5d3}\u{5d5}\u{5d3}" (word "\u{5d0}\u{5e9}\u{5d3}\u{5d5}\u{5d3}")
    ∷ place "\u{5d0}\u{5e9}\u{5e7}\u{5dc}\u{5d5}\u{5df}"
        (word "\u{5d0}\u{5e9}\u{5e7}\u{5dc}\u{5d5}\u{5df}")
    ∷ place "\u{5e0}\u{5ea}\u{5e0}\u{5d9}\u{5d4}" (word "\u{5e0}\u{5ea}\u{5e0}\u{5d9}\u{5d4}")
    ∷ place "\u{5e0}\u{5d9}\u{5e8} \u{5d3}\u{5d5}\u{5d3}"
        (two_words "\u{5e0}\u{5d9}\u{5e8}" "\u{5d3}\u{5d5}\u{5d3}")
    ∷ place "\u{5d1}\u{5d9}\u{5ea} \u{5d4}\u{5e9}\u{5d9}\u{5d8}\u{5d4}"
        (two_words "\u{5d1}\u{5d9}\u{5ea}" "\u{5d4}\u{5e9}\u{5d9}\u{5d8}\u{5d4}")
    ∷ place "\u{5d7}\u{5de}\u{5d3}\u{5d9}\u{5d4}" (word "\u{5d7}\u{5de}\u{5d3}\u{5d9}\u{5d4}")
    ∷ place "\u{5e9}\u{5d3}\u{5d4} \u{5d0}\u{5dc}\u{5d9}\u{5d4}\u{5d5}"
        (two_words "\u{5e9}\u{5d3}\u{5d4}" "\u{5d0}\u{5dc}\u{5d9}\u{5d4}\u{5d5}")
    ∷ place "\u{5e2}\u{5d9}\u{5df} \u{5d4}\u{5e0}\u{5e6}\u{5d9}\u{5d1}"
        (two_words "\u{5e2}\u{5d9}\u{5df}" "\u{5d4}\u{5e0}\u{5e6}\u{5d9}\u{5d1}")
    ∷ place "\u{5de}\u{5e0}\u{5d7}\u{5de}\u{5d9}\u{5d4}"
        (word "\u{5de}\u{5e0}\u{5d7}\u{5de}\u{5d9}\u{5d4}")
    ∷ place "\u{5d1}\u{5d9}\u{5ea} \u{5d9}\u{5d5}\u{5e1}\u{5e3}"
        (two_words "\u{5d1}\u{5d9}\u{5ea}" "\u{5d9}\u{5d5}\u{5e1}\u{5e3}")
    ∷ place "\u{5e0}\u{5d5}\u{5d5}\u{5d4} \u{5d0}\u{5d5}\u{5e8}"
        (two_words "\u{5e0}\u{5d5}\u{5d5}\u{5d4}" "\u{5d0}\u{5d5}\u{5e8}")
    ∷ place "\u{5d3}\u{5d2}\u{5e0}\u{5d9}\u{5d4}" (word "\u{5d3}\u{5d2}\u{5e0}\u{5d9}\u{5d4}")
    ∷ place "\u{5d9}\u{5d1}\u{5e0}\u{5d0}\u{5dc}" (word "\u{5d9}\u{5d1}\u{5e0}\u{5d0}\u{5dc}")
    ∷ place "\u{5e0}\u{5e6}\u{5e8}\u{5ea}" (word "\u{5e0}\u{5e6}\u{5e8}\u{5ea}")
    ∷ place "\u{5e6}\u{5de}\u{5d7}" (alone (word "\u{5e6}\u{5de}\u{5d7}"))
    ∷ []

-- A name in two words, the first of them "Beit".
abbrev beit : String → Regex
beit w =
    seqs (
      word "\u{5d1}\u{5d9}\u{5ea}"
      ∷ star space
      ∷ opt (one_of "-\u{5be}")
      ∷ star space
      ∷ word w
      ∷ [])

abbrev beit_shean_english : Regex
beit_shean_english = seqs (
    boundary
    ∷ word_i "beit"
    ∷ plus space
    ∷ word_i "she"
    ∷ opt (word "'")
    ∷ word_i "an"
    ∷ boundary
    ∷ [])

allowed_places : List Place
allowed_places =
    place "\u{5d1}\u{5d9}\u{5ea} \u{5e9}\u{5d0}\u{5df}" (beit "\u{5e9}\u{5d0}\u{5df}")
    ∷ place "\u{5d1}\u{5d9}\u{5ea} \u{5e9}\u{5d0}\u{5df}" beit_shean_english
    ∷ place "\u{5d1}\u{5d9}\u{5ea} \u{5e9}\u{5d0}\u{5df}" (
        alts (seqs (word "\u{628}\u{64a}\u{62a}" ∷ star space ∷ word "\u{634}\u{627}\u{646}" ∷ []))
          (word "\u{628}\u{64a}\u{633}\u{627}\u{646}"
            ∷ seqs (word_i "бейт" ∷ star (alt space (word "-")) ∷ word_i "шеан" ∷ [])
            ∷ []))
    ∷ place "\u{5de}\u{5e1}\u{5d9}\u{5dc}\u{5d5}\u{5ea}"
        (alone (word "\u{5de}\u{5e1}\u{5d9}\u{5dc}\u{5d5}\u{5ea}"))
    ∷ place "\u{5d9}\u{5e8}\u{5d3}\u{5e0}\u{5d4}"
        (alone (word "\u{5d9}\u{5e8}\u{5d3}\u{5e0}\u{5d4}"))
    ∷ place "\u{5d1}\u{5d9}\u{5ea} \u{5d0}\u{5dc}\u{5e4}\u{5d0}"
        (beit "\u{5d0}\u{5dc}\u{5e4}\u{5d0}")
    ∷ place "\u{5d8}\u{5d9}\u{5e8}\u{5ea} \u{5e6}\u{5d1}\u{5d9}" (
        seq (opt (seq (word "\u{5e7}\u{5d9}\u{5d1}\u{5d5}\u{5e5}") (plus space)))
          (two_words "\u{5d8}\u{5d9}\u{5e8}\u{5ea}" "\u{5e6}\u{5d1}\u{5d9}"))
    ∷ place "\u{5db}\u{5e4}\u{5e8} \u{5e8}\u{5d5}\u{5e4}\u{5d9}\u{5df}"
        (two_words "\u{5db}\u{5e4}\u{5e8}" "\u{5e8}\u{5d5}\u{5e4}\u{5d9}\u{5df}")
    ∷ place "\u{5de}\u{5d7}\u{5d5}\u{5dc}\u{5d4}"
        (alone (word "\u{5de}\u{5d7}\u{5d5}\u{5dc}\u{5d4}"))
    ∷ []

-- "No", "I am not", before a place.
negation : Regex
negation = seqs (
    words "\u{5dc}\u{5d0}"
      ("\u{5d0}\u{5d9}\u{5e0}\u{5e0}\u{5d9}" ∷ "\u{5d0}\u{5d9}\u{5e0}\u{5d9}" ∷ [])
    ∷ star space
    ∷ opt (seqs (word "\u{5d2}\u{5e8}" ∷ opt (word "\u{5d4}") ∷ star space ∷ []))
    ∷ opt (alt (one_of "\u{5d1}\u{5de}\u{5dc}") (seq (word_i "in") (plus space)))
    ∷ finish
    ∷ [])

-- `mentionIsNegated(text, index)`, from the text before the index.
mention_is_negated : String → Bool
unfolding negation test text_drop text_length
mention_is_negated before = test negation (text_drop (text_length before - 20) before)

-- `/[\u0590-\u05FF]/`
hebrew_range : Regex
hebrew_range = between 1424 1535

-- "Near", "close to", "around" Beit Shean.
near_beit_shean : Regex
near_beit_shean = seqs (
    words "\u{5dc}\u{5d9}\u{5d3}" (
      "\u{5e7}\u{5e8}\u{5d5}\u{5d1} \u{5dc}" ∷ "\u{5d1}\u{5d0}\u{5d6}\u{5d5}\u{5e8}"
      ∷ "\u{5e1}\u{5de}\u{5d5}\u{5da} \u{5dc}" ∷ [])
    ∷ star space
    ∷ beit "\u{5e9}\u{5d0}\u{5df}"
    ∷ [])

abbrev near_english : Regex
near_english = seqs (
    boundary
    ∷ word_i "near"
    ∷ plus space
    ∷ word_i "beit"
    ∷ plus space
    ∷ word_i "she"
    ∷ opt (word "'")
    ∷ word_i "an"
    ∷ boundary
    ∷ [])

module _ (nfkc : String → String) where
  -- `cityOutsideStreet(text, name)`: the name stands outside the street of the text.
  unfoldable pub city_outside_street : String → String → Bool
  unfolding norm street_phrase exec includes
  city_outside_street text name =
      let s = norm nfkc text in
      let street = street_phrase nfkc text in
      let rest : String =
        if filled street
        then elim (exec (word (text_of street)) s) [
          | none ↦ s
          | some m ↦ template (m.before ∷ " " ∷ m.after ∷ [])
        ]
        else s in
      includes name rest

  -- A place that the loop of `namedOutsideSettlement` returns, for a normalised text.
  names_outside : String → Place → Bool
  unfolding exec mention_is_negated hebrew_range test city_outside_street
  names_outside s place = elim (exec place.pattern s) [
    | none ↦ false
    | some m ↦
        not (mention_is_negated m.before)
        && not (
            test hebrew_range m.here
            && test hebrew_range place.name
            && not (city_outside_street s place.name))
  ]

  first_named : String → List Place → Option String
  unfolding names_outside
  first_named s [] = none
  first_named s (p ∷ places) =
      let later = first_named s places in if names_outside s p then some p.name else later

  unfoldable pub named_outside_settlement : String → Option String
  unfolding norm first_named outside_places
  named_outside_settlement text = first_named (norm nfkc text) outside_places

  first_allowed : String → List Place → Option String
  unfolding test
  first_allowed s [] = none
  first_allowed s (p ∷ places) =
      let later = first_allowed s places in if test p.pattern s then some p.name else later

  -- `mentionedAllowedSettlement(text)`
  unfoldable pub mentioned_allowed_settlement : String → Option String
  unfolding norm named_outside_settlement first_allowed allowed_places near_beit_shean replace_all
  mentioned_allowed_settlement text =
      if filled (named_outside_settlement text)
      then none
      else first_allowed
          (replace_all near_english " " (replace_all near_beit_shean " " (norm nfkc text)))
          allowed_places

towns :
    (mentioned_allowed_settlement
        (λ s. s)
        "\u{5d0}\u{5e0}\u{5d9} \u{5d1}\u{5d1}\u{5d9}\u{5ea} \u{5e9}\u{5d0}\u{5df}"
      ≡ some "\u{5d1}\u{5d9}\u{5ea} \u{5e9}\u{5d0}\u{5df}")
    × (mentioned_allowed_settlement
          (λ s. s)
          "\u{5dc}\u{5d9}\u{5d3} \u{5d1}\u{5d9}\u{5ea} \u{5e9}\u{5d0}\u{5df}"
        ≡ none)
    × (named_outside_settlement
          (λ s. s)
          "\u{5dc}\u{5d0} \u{5d2}\u{5e8} \u{5d1}\u{5e2}\u{5e4}\u{5d5}\u{5dc}\u{5d4}"
        ≡ none)
    × (named_outside_settlement
          (λ s. s)
          "\u{5d0}\u{5e0}\u{5d9} \u{5de}\u{5e2}\u{5e4}\u{5d5}\u{5dc}\u{5d4}"
        ≡ some "\u{5e2}\u{5e4}\u{5d5}\u{5dc}\u{5d4}")
unfolding mentioned_allowed_settlement
towns = (refl, refl, refl, refl)

-- ===== src/Policies/Intents.antt =====
-- src/domain/policies.ts: normalisation of a customer's text, and the patterns that read an
-- intent from it. Unicode's NFKC normalisation is the platform's: the argument `nfkc`.
use zolo.Prelude.{
  ℕ, String, code, Bool, true, false, not, ◌&&◌, ◌||◌, ◌≡◌, refl, [], ◌∷◌, nat_eq, ◌==◌,
  if◌then◌else◌, is_space, trim, filled, template, Option, none, some,
}
use zolo.Regex.{
  Regex, start, finish, boundary, word, seq, opt, alt, star, word_i, seqs, alts, words, words_i,
  plus, up_to, times, one_of, space, not_space, any_char, digit_char, hebrew_letter,
  not_hebrew_letter, ahead, test, exec, Match,
}

-- The Hebrew hyphen, the dashes and the minus.
is_dash : ℕ → Bool
is_dash c = c == 1470 || c == 8211 || c == 8212 || c == b'-'

-- Runs of spaces and dashes, as one space each; `in_run` tells that one was just written.
collapse : Bool → String → String
unfolding is_dash is_space
collapse in_run String.[] = ""
collapse in_run (String.◌∷◌ c s) =
    let blank = is_dash (code c) || is_space (code c) in
    let rest = collapse blank s in
    if blank then (if in_run then rest else String.◌∷◌ " " rest) else String.◌∷◌ c rest

-- The words of a cancellation.
cancel_words : Regex
cancel_words = words "\u{5dc}\u{5d1}\u{5d8}\u{5dc}" (
    "\u{5d1}\u{5d9}\u{5d8}\u{5d5}\u{5dc}" ∷ "\u{5ea}\u{5d1}\u{5d8}\u{5dc}\u{5d5}"
    ∷ "\u{5ea}\u{5d1}\u{5d8}\u{5dc}" ∷ "\u{5de}\u{5d1}\u{5d8}\u{5dc}"
    ∷ "\u{5de}\u{5d1}\u{5d8}\u{5dc}\u{5ea}"
    ∷ "\u{5dc}\u{5d0} \u{5e8}\u{5dc}\u{5d5}\u{5d5}\u{5e0}\u{5d8}\u{5d9}" ∷ [])

-- The word "today" by itself.
same_day_word : Regex
same_day_word = seqs (
    alt start not_hebrew_letter
    ∷ word "\u{5d4}\u{5d9}\u{5d5}\u{5dd}"
    ∷ ahead (alt finish not_hebrew_letter)
    ∷ [])

-- The consent of `explicitApproval`: a word of consent, at the start or behind a mark that ends a
-- sentence, or an introduction followed by one.
consent : Regex
consent = seqs (
    alt start (seq (one_of ".!,;") (star space))
    ∷ alt
        (words "\u{5db}\u{5df}" (
          "\u{5de}\u{5d0}\u{5e9}\u{5e8}" ∷ "\u{5de}\u{5d0}\u{5e9}\u{5e8}\u{5ea}"
          ∷ "\u{5d0}\u{5e0}\u{5d9} \u{5de}\u{5d0}\u{5e9}\u{5e8}"
          ∷ "\u{5d0}\u{5e0}\u{5d9} \u{5de}\u{5d0}\u{5e9}\u{5e8}\u{5ea}"
          ∷ "\u{5de}\u{5d0}\u{5d5}\u{5e9}\u{5e8}" ∷ "\u{5de}\u{5e1}\u{5db}\u{5d9}\u{5dd}"
          ∷ "\u{5de}\u{5e1}\u{5db}\u{5d9}\u{5de}\u{5d4}" ∷ []))
        (seqs (
          word "\u{5d0}\u{5e0}\u{5d9}"
          ∷ plus space
          ∷ times 2 hebrew_letter
          ∷ star hebrew_letter
          ∷ plus (alt (one_of ",") space)
          ∷ opt (words "\u{5de}" ("\u{5d5}\u{5de}" ∷ []))
          ∷ word "\u{5d0}\u{5e9}\u{5e8}"
          ∷ opt (word "\u{5ea}")
          ∷ []))
    ∷ alts space (one_of ".,!" ∷ finish ∷ [])
    ∷ [])

-- The street of `streetPhrase`: a word for a street or a quarter, and one to five names.
name_char : Regex
name_char = alts hebrew_letter (digit_char ∷ one_of "\u{5f3}\u{5f4}'\"’.-" ∷ [])

street_name : Regex
unfolding name_char
street_name = seqs (
    alt
      (words "\u{5e8}\u{5d7}\u{5d5}\u{5d1}" (
        "\u{5e9}\u{5d9}\u{5db}\u{5d5}\u{5df}" ∷ "\u{5e9}\u{5db}\u{5d5}\u{5e0}\u{5d4}"
        ∷ "\u{5e9}\u{5db}\u{5d5}\u{5e0}\u{5ea}" ∷ "\u{5e9}\u{5d3}\u{5e8}\u{5d5}\u{5ea}" ∷ []))
      (seq (word "\u{5e9}\u{5d3}") (opt (one_of "\u{5f3}'")))
    ∷ plus space
    ∷ plus name_char
    ∷ up_to 4 (seq (plus space) (plus name_char))
    ∷ [])

-- The floor, and an elevator, behind a street.
floor_suffix : Regex
floor_suffix = seqs (
    plus space
    ∷ alt (word "\u{5e7}\u{5d5}\u{5de}\u{5d4}") (seq (word "\u{5e7}") (one_of "\u{5f3}'"))
    ∷ star space
    ∷ opt (word "-")
    ∷ plus digit_char
    ∷ opt (
        seqs (
          plus space
          ∷ word "\u{5e2}\u{5dd}"
          ∷ plus space
          ∷ word "\u{5de}\u{5e2}\u{5dc}\u{5d9}\u{5ea}"
          ∷ []))
    ∷ star space
    ∷ finish
    ∷ [])

-- `text.replace(r, "")`
abbrev pub remove : Option Match → String → String
remove none s = s
remove (some m) s = template (m.before ∷ m.after ∷ [])

-- The name that is a street and a city, behind a preposition or by itself.
eilat : Regex
eilat = seqs (
    alts start (space ∷ one_of "," ∷ [])
    ∷ opt (one_of "\u{5de}\u{5d1}\u{5dc}")
    ∷ word "\u{5d0}\u{5d9}\u{5dc}\u{5ea}"
    ∷ alts finish (space ∷ one_of ",.;!?" ∷ [])
    ∷ [])

-- The patterns of `donationIntent`, one for each line of the source.
hebrew_donation : Regex
hebrew_donation = words "\u{5dc}\u{5de}\u{5e1}\u{5d9}\u{5e8}\u{5d4}" (
    "\u{5dc}\u{5ea}\u{5e8}\u{5d5}\u{5de}\u{5d4}" ∷ "\u{5dc}\u{5de}\u{5e1}\u{5d5}\u{5e8}"
    ∷ "\u{5dc}\u{5ea}\u{5e8}\u{5d5}\u{5dd}" ∷ "\u{5de}\u{5d5}\u{5e1}\u{5e8}"
    ∷ "\u{5de}\u{5d5}\u{5e1}\u{5e8}\u{5ea}" ∷ "\u{5dc}\u{5d4}\u{5e2}\u{5d1}\u{5d9}\u{5e8}"
    ∷ "\u{5de}\u{5e2}\u{5d1}\u{5d9}\u{5e8}" ∷ "\u{5de}\u{5e2}\u{5d1}\u{5d9}\u{5e8}\u{5d4}"
    ∷ "\u{5d9}\u{5e9} \u{5dc}\u{5d9} \u{5dc}\u{5d4}\u{5e2}\u{5d1}\u{5d9}\u{5e8}" ∷ [])

come_and_take : Regex
come_and_take = seqs (
    words "\u{5ea}\u{5d1}\u{5d5}\u{5d0}\u{5d5}" (
      "\u{5ea}\u{5d1}\u{5d5}\u{5d0}" ∷ "\u{5d1}\u{5d5}\u{5d0}\u{5d5}"
      ∷ "\u{5ea}\u{5d2}\u{5d9}\u{5e2}\u{5d5}" ∷ "\u{5ea}\u{5d2}\u{5d9}\u{5e2}" ∷ [])
    ∷ up_to 3 (seq (plus space) (plus not_space))
    ∷ plus space
    ∷ word "\u{5dc}\u{5e7}\u{5d7}\u{5ea}"
    ∷ [])

english_donation : Regex
english_donation = seqs (
    boundary
    ∷ words_i "donate" ("donation" ∷ "donating" ∷ "give away" ∷ "giving away" ∷ [])
    ∷ boundary
    ∷ [])

have_to_give : Regex
have_to_give = seqs (
    boundary
    ∷ word_i "i have"
    ∷ boundary
    ∷ up_to 48 any_char
    ∷ boundary
    ∷ word_i "to give"
    ∷ boundary
    ∷ [])

give : Regex
give = seqs (boundary ∷ words_i "give" ("giving" ∷ []) ∷ boundary ∷ [])

give_person : Regex
give_person = seqs (
    boundary
    ∷ word_i "give"
    ∷ plus space
    ∷ words_i "me" ("you" ∷ "us" ∷ "him" ∷ "her" ∷ "them" ∷ [])
    ∷ boundary
    ∷ [])

arabic_donation : Regex
arabic_donation = words "\u{62a}\u{628}\u{631}\u{639}" (
    "\u{623}\u{62a}\u{628}\u{631}\u{639}" ∷ "\u{644}\u{644}\u{62a}\u{628}\u{631}\u{639}"
    ∷ "\u{623}\u{639}\u{637}\u{64a}" ∷ "\u{627}\u{639}\u{637}\u{64a}"
    ∷ "\u{623}\u{647}\u{62f}\u{64a}" ∷ "\u{627}\u{647}\u{62f}\u{64a}" ∷ [])

russian_donation : Regex
russian_donation = words_i "отдать" ("отдаю" ∷ "отдам" ∷ "пожертв" ∷ [])

unfoldable pub donation_intent : String → Bool
unfolding hebrew_donation come_and_take english_donation have_to_give give give_person
    arabic_donation russian_donation test
donation_intent t =
    test hebrew_donation t
    || test come_and_take t
    || test english_donation t
    || test have_to_give t
    || test give t && not (test give_person t)
    || test arabic_donation t
    || test russian_donation t

-- The patterns of `seekIntent`.
english_search : Regex
english_search = seqs (
    boundary
    ∷ words_i "i'm looking for"
        ("im looking for" ∷ "i am looking for" ∷ "looking for" ∷ "i need" ∷ "can i get" ∷ [])
    ∷ boundary
    ∷ [])

arabic_search : Regex
arabic_search = words "\u{623}\u{628}\u{62d}\u{62b}" (
    "\u{623}\u{62d}\u{62a}\u{627}\u{62c}" ∷ "\u{627}\u{62d}\u{62a}\u{627}\u{62c}"
    ∷ "\u{623}\u{628}\u{63a}\u{649}" ∷ "\u{627}\u{628}\u{63a}\u{649}" ∷ [])

russian_search : Regex
russian_search = words_i "ищу" ("мне нужн" ∷ "можно получить" ∷ "хочу получить" ∷ [])

unfoldable pub seek_intent : String → Bool
unfolding english_search arabic_search russian_search test
seek_intent t = test english_search t || test arabic_search t || test russian_search t

module _ (nfkc : String → String) where
  unfoldable pub norm : String → String
  unfolding collapse trim
  norm s = trim (collapse false (nfkc s))

  unfoldable pub same_day_demand : String → Bool
  unfolding norm same_day_word test
  same_day_demand text = test same_day_word (norm text)

  unfoldable pub explicit_approval : String → Bool
  unfolding norm consent test
  explicit_approval t = test consent (norm t)

  unfoldable pub customer_cancel_intent : String → Bool
  unfolding norm cancel_words test
  customer_cancel_intent text = test cancel_words (norm text)

  -- `streetPhrase(text)`: the street, without the floor behind it.
  unfoldable pub street_phrase : String → Option String
  unfolding norm street_name floor_suffix exec trim
  street_phrase text = elim (exec street_name (norm text)) [
    | none ↦ none
    | some m ↦ some (trim (remove (exec floor_suffix m.here) m.here))
  ]

  unfoldable pub ambiguous_street_city : String → Bool
  unfolding norm street_phrase eilat test
  ambiguous_street_city text = not (filled (street_phrase text)) && test eilat (norm text)

approvals :
    (explicit_approval (λ s. s) "\u{5db}\u{5df}" ≡ true)
    × (explicit_approval
          (λ s. s)
          "\u{5d0}\u{5e0}\u{5d9} \u{5d8}\u{5dc}, \u{5d4}\u{5de}\u{5e7}\u{5d1}\u{5dc}\u{5ea}. \u{5de}\u{5d0}\u{5e9}\u{5e8}\u{5ea} \u{5d0}\u{5ea} \u{5d4}\u{5e4}\u{5e8}\u{5d8}\u{5d9}\u{5dd}."
        ≡ true)
    × (explicit_approval (λ s. s) "\u{5dc}\u{5d0} \u{5de}\u{5d0}\u{5e9}\u{5e8}" ≡ false)
unfolding explicit_approval
approvals = (refl, refl, refl)

donations :
    (donation_intent
        "\u{5d0}\u{5e0}\u{5d9} \u{5e8}\u{5d5}\u{5e6}\u{5d4} \u{5dc}\u{5de}\u{5e1}\u{5d5}\u{5e8} \u{5e1}\u{5e4}\u{5d4}"
      ≡ true)
    × (donation_intent "can you give me a sofa" ≡ false)
unfolding donation_intent
donations = (refl, refl)

cities :
    (ambiguous_street_city (λ s. s) "\u{5d2}\u{5e8} \u{5d1}\u{5d0}\u{5d9}\u{5dc}\u{5ea}" ≡ true)
    × (ambiguous_street_city (λ s. s) "\u{5e8}\u{5d7}\u{5d5}\u{5d1} \u{5d0}\u{5d9}\u{5dc}\u{5ea} 5"
        ≡ false)
unfolding ambiguous_street_city
cities = (refl, refl)

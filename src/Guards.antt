-- ===== src/Guards.antt =====
-- src/domain/ai-guards.ts: what a reworded reply may claim, and the question behind an unclear
-- message.
pub mod Claims
use zolo.Prelude.{
  String, Bool, true, false, not, ◌&&◌, ◌||◌, Option, none, some, List, [], ◌∷◌, string_eq, ◌==◌,
  if◌then◌else◌, is_empty, any, filter, nonempty, text_of, includes, trim,
}
use zolo.Regex.{
  Regex, start, finish, boundary, word, words, word_i, words_i, alt, alts, seq, seqs, opt, star,
  plus, not_ahead, space, one_of, digit_char, times, up_to, hebrew_letter, test, replace_all,
}

abbrev pub clarify_reply : String
clarify_reply =
    "\u{5dc}\u{5d0} \u{5d4}\u{5d1}\u{5e0}\u{5ea}\u{5d9} \u{5d0}\u{5ea} \u{5d4}\u{5db}\u{5d5}\u{5d5}\u{5e0}\u{5d4}. \u{5d0}\u{5e4}\u{5e9}\u{5e8} \u{5dc}\u{5db}\u{5ea}\u{5d5}\u{5d1} \u{5d0}\u{5ea} \u{5d6}\u{5d4} \u{5e9}\u{5d5}\u{5d1}?"

abbrev pub fault_reply : String
fault_reply =
    "\u{5d9}\u{5e9} \u{5ea}\u{5e7}\u{5dc}\u{5d4} \u{5d6}\u{5de}\u{5e0}\u{5d9}\u{5ea} \u{5d1}\u{5de}\u{5e2}\u{5e8}\u{5db}\u{5ea}. \u{5e0}\u{5d7}\u{5d6}\u{5d5}\u{5e8} \u{5d0}\u{5dc}\u{5d9}\u{5da} \u{5d1}\u{5d4}\u{5e7}\u{5d3}\u{5dd}."

-- Eight to ten digits in a row.
abbrev phone_digits : Regex
phone_digits = seq (times 8 digit_char) (up_to 2 digit_char)

-- "To" somebody: a word behind the letter for "to" that is no infinitive.
abbrev to_person : Regex
to_person = seqs (
    alt start space
    ∷ word "\u{5dc}"
    ∷ not_ahead (
        words "\u{5de}\u{5e1}\u{5d5}\u{5e8}"
          ("\u{5e7}\u{5d1}\u{5dc}" ∷ "\u{5ea}\u{5ea}" ∷ "\u{5d4}\u{5e2}\u{5d1}\u{5d9}\u{5e8}" ∷ []))
    ∷ alt
        (words "\u{5d8}\u{5dc}" (
          "\u{5de}\u{5d9}\u{5e9}\u{5d4}\u{5d5}" ∷ "\u{5d7}\u{5d1}\u{5e8}"
          ∷ "\u{5d7}\u{5d1}\u{5e8}\u{5d4}" ∷ "\u{5d0}\u{5de}\u{5d0}" ∷ "\u{5d0}\u{5d1}\u{5d0}"
          ∷ "\u{5e1}\u{5d1}\u{5ea}\u{5d0}" ∷ "\u{5e1}\u{5d1}\u{5d0}" ∷ []))
        (seq hebrew_letter (plus hebrew_letter))
    ∷ alt space finish
    ∷ [])

abbrev wants : Regex
wants = opt (seq (word "\u{5e8}\u{5d5}\u{5e6}\u{5d4}") (plus space))

abbrev donates : Regex
donates =
    alt
      (seq wants (
        words "\u{5dc}\u{5de}\u{5e1}\u{5d5}\u{5e8}"
          ("\u{5dc}\u{5ea}\u{5ea}" ∷ "\u{5dc}\u{5d4}\u{5e2}\u{5d1}\u{5d9}\u{5e8}" ∷ [])))
      (word "\u{5de}\u{5e1}\u{5d9}\u{5e8}\u{5d4}")

abbrev receives : Regex
receives =
    alt
      (seq wants (
        words "\u{5dc}\u{5e7}\u{5d1}\u{5dc}"
          ("\u{5de}\u{5d1}\u{5e7}\u{5e9}" ∷ "\u{5e6}\u{5e8}\u{5d9}\u{5da}" ∷ [])))
      (word "\u{5e7}\u{5d1}\u{5dc}\u{5d4}")

abbrev furniture : Regex
furniture = words "\u{5de}\u{5d9}\u{5d8}\u{5d4}" (
    "\u{5e1}\u{5e4}\u{5d4}" ∷ "\u{5e9}\u{5d9}\u{5d3}\u{5d4}" ∷ "\u{5de}\u{5e0}\u{5d5}\u{5e8}\u{5d4}"
    ∷ "\u{5e9}\u{5d5}\u{5dc}\u{5d7}\u{5df}" ∷ "\u{5db}\u{5d9}\u{5e1}\u{5d0}"
    ∷ "\u{5de}\u{5e7}\u{5e8}\u{5e8}" ∷ "\u{5de}\u{5db}\u{5d5}\u{5e0}\u{5ea}"
    ∷ "\u{5ea}\u{5e0}\u{5d5}\u{5e8}" ∷ "\u{5d0}\u{5e8}\u{5d5}\u{5df}"
    ∷ "\u{5e4}\u{5e8}\u{5d9}\u{5d8}" ∷ "\u{5e8}\u{5d4}\u{5d9}\u{5d8}" ∷ [])

abbrev ending : Regex
ending = seq (star (one_of ".!?")) finish

-- "I want", and a greeting, by themselves.
abbrev bare_wish : Regex
bare_wish = seqs (
    start
    ∷ opt (seq (word "\u{5d0}\u{5e0}\u{5d9}") (plus space))
    ∷ word "\u{5e8}\u{5d5}\u{5e6}\u{5d4}"
    ∷ ending
    ∷ [])

abbrev bare_greeting : Regex
bare_greeting = seqs (
    start
    ∷ words "\u{5d4}\u{5d9}\u{5d9}" ("\u{5e9}\u{5dc}\u{5d5}\u{5dd}" ∷ "\u{5d4}\u{5d9}" ∷ [])
    ∷ ending
    ∷ [])

probe_text : String → String
unfolding test
probe_text t =
    let has_person = test phone_digits t || test to_person t in
    let has_item = test furniture t in
    if test donates t && not has_person
    then "\u{5dc}\u{5de}\u{5d9} \u{5ea}\u{5e8}\u{5e6}\u{5d4} \u{5dc}\u{5de}\u{5e1}\u{5d5}\u{5e8}? \u{5d0}\u{5e4}\u{5e9}\u{5e8} \u{5dc}\u{5db}\u{5ea}\u{5d5}\u{5d1} \u{5e9}\u{5dd} \u{5d0}\u{5d5} \u{5de}\u{5e1}\u{5e4}\u{5e8} \u{5d8}\u{5dc}\u{5e4}\u{5d5}\u{5df}."
    else if test donates t && has_person && not has_item
    then "\u{5d0}\u{5d9}\u{5d6}\u{5d4} \u{5e4}\u{5e8}\u{5d9}\u{5d8} \u{5ea}\u{5e8}\u{5e6}\u{5d4} \u{5dc}\u{5de}\u{5e1}\u{5d5}\u{5e8}?"
    else if test receives t && not has_item && not has_person
    then "\u{5de}\u{5d4} \u{5ea}\u{5e8}\u{5e6}\u{5d4} \u{5dc}\u{5e7}\u{5d1}\u{5dc}, \u{5d5}\u{5de}\u{5d0}\u{5d9}\u{5e4}\u{5d4} \u{5d0}\u{5d5} \u{5de}\u{5de}\u{5d9}?"
    else if test receives t && not has_item
    then "\u{5d0}\u{5d9}\u{5d6}\u{5d4} \u{5e4}\u{5e8}\u{5d9}\u{5d8} \u{5ea}\u{5e8}\u{5e6}\u{5d4} \u{5dc}\u{5e7}\u{5d1}\u{5dc}?"
    else if test bare_wish t || test bare_greeting t
    then "\u{5de}\u{5d4} \u{5ea}\u{5e8}\u{5e6}\u{5d4} \u{5dc}\u{5e2}\u{5e9}\u{5d5}\u{5ea} — \u{5dc}\u{5de}\u{5e1}\u{5d5}\u{5e8} \u{5e4}\u{5e8}\u{5d9}\u{5d8} \u{5d0}\u{5d5} \u{5dc}\u{5e7}\u{5d1}\u{5dc} \u{5e4}\u{5e8}\u{5d9}\u{5d8}?"
    else clarify_reply

-- `probeReply(text)`
unfoldable pub probe_reply : String → String
unfolding probe_text replace_all trim
probe_reply text =
    let t = trim (replace_all (plus space) " " text) in
    if nonempty t then probe_text t else clarify_reply

-- The words by which a reply claims that something was done.
abbrev pub claim_markers : List String
claim_markers =
    "\u{5d4}\u{5ea}\u{5d9}\u{5d0}\u{5d5}\u{5dd} \u{5d4}\u{5d5}\u{5e9}\u{5dc}\u{5dd}"
    ∷ "\u{5e0}\u{5e9}\u{5dc}\u{5d7}\u{5d4}" ∷ "\u{5ea}\u{5d5}\u{5d0}\u{5de}\u{5d4}"
    ∷ "\u{5d1}\u{5d5}\u{5e6}\u{5e2}\u{5d4}" ∷ "\u{5e0}\u{5e7}\u{5d1}\u{5e2}\u{5d4}"
    ∷ "\u{5de}\u{5d0}\u{5d5}\u{5e9}\u{5e8}" ∷ "\u{5e0}\u{5e9}\u{5de}\u{5e8}"
    ∷ "\u{5d0}\u{5d5}\u{5e9}\u{5e8}" ∷ "\u{5e4}\u{5e0}\u{5d9}\u{5e0}\u{5d5}"
    ∷ "\u{5e0}\u{5e9}\u{5dc}\u{5d7}" ∷ "\u{5ea}\u{5d5}\u{5d0}\u{5dd}"
    ∷ "\u{5e9}\u{5dc}\u{5d7}\u{5ea}\u{5d9}" ∷ "\u{5e4}\u{5e0}\u{5d9}\u{5ea}\u{5d9}"
    ∷ "\u{5d1}\u{5d5}\u{5e6}\u{5e2}" ∷ "\u{5e0}\u{5e7}\u{5d1}\u{5e2}"
    ∷ "\u{5e0}\u{5d0}\u{5e1}\u{5d5}\u{5e3}" ∷ "\u{5e0}\u{5d1}\u{5d5}\u{5d0}"
    ∷ "\u{5e0}\u{5d9}\u{5e7}\u{5d7}" ∷ []

-- `markersIn(text)`
unfoldable pub markers_in : String → List String
unfolding includes
markers_in text = filter (λ marker. includes marker text) claim_markers

unfoldable pub claims_operational_outcome : String → Bool
unfolding markers_in
claims_operational_outcome text = not (is_empty (markers_in text))

-- A photograph in the languages of the replies.
abbrev photo_word : Regex
photo_word = alts (word "\u{5ea}\u{5de}\u{5d5}\u{5e0}\u{5d4}") (
    seqs (boundary ∷ word_i "photo" ∷ boundary ∷ [])
    ∷ word "\u{635}\u{648}\u{631}\u{629}"
    ∷ word_i "фото"
    ∷ [])

-- The question about the condition of an item, and its words in a reworded reply.
abbrev condition_question : Regex
condition_question =
    alts
      (words
        "\u{5d4}\u{5d0}\u{5dd} \u{5d4}\u{5e4}\u{5e8}\u{5d9}\u{5d8} \u{5ea}\u{5e7}\u{5d9}\u{5df}"
        ("\u{5ea}\u{5e7}\u{5d9}\u{5df} \u{5d5}\u{5e9}\u{5de}\u{5d9}\u{5e9}" ∷ []))
      (word_i "fully working"
        ∷ word "\u{633}\u{644}\u{64a}\u{645} \u{648}\u{642}\u{627}\u{628}\u{644}"
        ∷ word_i "исправен"
        ∷ [])

abbrev condition_word : Regex
condition_word = alts (word "\u{5ea}\u{5e7}\u{5d9}\u{5df}") (
    words_i "fully working" ("usable" ∷ [])
    ∷ word "\u{633}\u{644}\u{64a}\u{645}"
    ∷ word_i "исправен"
    ∷ [])

-- `dropsRequiredPhrase(canonical, phrased)`
unfoldable pub drops_required_phrase : String → String → Bool
unfolding test
drops_required_phrase canonical phrased =
    test photo_word canonical && not (test photo_word phrased)
    || test condition_question canonical && not (test condition_word phrased)

pub record Guarded : Type 0 where
  pub text : String
  pub was_rejected : Bool

abbrev pub has_marker : List String → String → Bool
has_marker markers marker = any (λ m. m == marker) markers

-- The claims of the candidate that the canonical reply does not make.
unfoldable pub extra_claims : String → String → List String
unfolding markers_in
extra_claims canonical candidate =
    filter (λ marker. not (has_marker (markers_in canonical) marker)) (markers_in candidate)

-- `applyClaimGuard(canonical, phrased, proven)`; the code does not use the last.
unfoldable pub apply_claim_guard : String → Option String → Guarded
unfolding trim extra_claims drops_required_phrase
apply_claim_guard canonical phrased =
    let candidate = trim (text_of phrased) in
    if not (nonempty candidate)
    then record { text = canonical; was_rejected = false }
    else if not (is_empty (extra_claims canonical candidate))
        || drops_required_phrase canonical candidate
    then record { text = canonical; was_rejected = true }
    else record { text = candidate; was_rejected = false }

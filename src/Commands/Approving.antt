-- ===== src/Commands/Approving.antt =====
-- src/application/commands.ts: the commands `approve_self` and `approve_schedule`.
pub mod Consent
use zolo.Prelude.{
  ℕ, String, Bool, true, false, ◌&&◌, ◌||◌, not, Option, none, some, List, [], ◌∷◌, nat_eq,
  string_eq, option_eq, ◌==◌, if◌then◌else◌, is_none, or_else, update, Failure, app_error, Result,
  ok, err, ◌>>=◌, ◌>>◌, ensure, includes, trim,
}
use zolo.Regex.{
  Regex, start, finish, word, words, one_of, alt, seq, seqs, star, plus, opt, space, test,
}
use zolo.Domain.{Party, Request, Context}
use zolo.Policies.Calendar.{day_label}
use zolo.Policies.Intents.{explicit_approval}
use zolo.Policies.Parties.{own_party}
use zolo.Commands.Base.{Env, message_text, previous_text}

-- A mere "yes", "yes, thanks", "yes, sure".
abbrev mere_yes : Regex
mere_yes = seqs (
    start
    ∷ word "\u{5db}\u{5df}"
    ∷ star (
        alt (one_of ".! ") (
          seq (plus space) (
            words "\u{5ea}\u{5d5}\u{5d3}\u{5d4}"
              ("\u{5d1}\u{5d8}\u{5d7}" ∷ "\u{5d1}\u{5e8}\u{5d5}\u{5e8}" ∷ []))))
    ∷ finish
    ∷ [])

unfoldable pub says_mere_yes : String → Bool
unfolding test trim
says_mere_yes text = test mere_yes (trim text)

-- The question before asked for an approval.
unfoldable pub asked_approval : String → Bool
unfolding test
asked_approval previous =
    test
      (words "\u{5e0}\u{5d0} \u{5dc}\u{5d0}\u{5e9}\u{5e8}"
        ("\u{5dc}\u{5d0}\u{5e9}\u{5e8} \u{5de}\u{5d7}\u{5d3}\u{5e9}" ∷ []))
      previous

-- Explicit consent; a mere yes only to a question that asked for an approval.
unfoldable pub approves_self : Env → Context → Bool
unfolding explicit_approval says_mere_yes asked_approval
approves_self e ctx =
    explicit_approval e.nfkc (message_text ctx)
    && (not (says_mere_yes (message_text ctx)) || asked_approval (previous_text ctx))

abbrev pub explicit_approval_required : Failure
explicit_approval_required =
    app_error "explicit_approval_required" 400
      "\u{5e0}\u{5d0} \u{5dc}\u{5d0}\u{5e9}\u{5e8} \u{5d1}\u{5de}\u{5e4}\u{5d5}\u{5e8}\u{5e9} \u{5d0}\u{5ea} \u{5d7}\u{5dc}\u{5e7}\u{5da} \u{5d1}\u{5e4}\u{5e0}\u{5d9}\u{5d9}\u{5d4}."

-- The first instant of an approval stays.
abbrev pub approve_party : Env → String → Party → Party
approve_party e phone p = record p {
  approved_at = or_else p.approved_at (some e.now.instant);
  approved_by = some phone;
}

unfoldable pub approve_self_command : Env → Context → Request → Result Request
unfolding approves_self
approve_self_command e ctx r = do
  let phone = ctx.conversation.phone
  ensure (approves_self e ctx) explicit_approval_required
  ok (record r { parties = update (λ p. p.phone == phone) (approve_party e phone) r.parties })

abbrev asks_date : Regex
asks_date =
    alt
      (words
        "\u{5e0}\u{5d0} \u{5dc}\u{5d0}\u{5e9}\u{5e8} \u{5d0}\u{5ea} \u{5d4}\u{5de}\u{5d5}\u{5e2}\u{5d3}"
        ("\u{5e0}\u{5d0} \u{5dc}\u{5d0}\u{5e9}\u{5e8} \u{5d1}\u{5de}\u{5e4}\u{5d5}\u{5e8}\u{5e9}"
          ∷ []))
      (alt
        (seq
          (word
            "\u{5e0}\u{5d3}\u{5e8}\u{5e9} \u{5e2}\u{5d3}\u{5d9}\u{5d9}\u{5df} \u{5d0}\u{5d9}\u{5e9}\u{5d5}\u{5e8}")
          (opt (word " \u{5e9}\u{5dc}\u{5da}")))
        (word
          "\u{5de}\u{5de}\u{5ea}\u{5d9}\u{5e0}\u{5d9}\u{5dd} \u{5dc}\u{5d0}\u{5d9}\u{5e9}\u{5d5}\u{5e8} \u{5d4}\u{5de}\u{5d5}\u{5e2}\u{5d3}"))

unfoldable pub asked_date : String → Bool
unfolding test
asked_date previous = test asks_date previous

-- The date stands in the question that was asked, or in the customer's own words.
unfoldable pub names_date : Context → String → Bool
unfolding asked_date includes
names_date ctx label =
    includes label (previous_text ctx) && asked_date (previous_text ctx)
    || includes label (message_text ctx)

unfoldable pub approves_date : Env → Context → Option ℕ → ℕ → Bool
unfolding explicit_approval names_date day_label
approves_date e ctx date proposal =
    date == some proposal
    && explicit_approval e.nfkc (message_text ctx)
    && names_date ctx (day_label proposal)

abbrev pub schedule_approval_mismatch : Failure
schedule_approval_mismatch =
    app_error "schedule_approval_mismatch" 400
      "\u{5d4}\u{5de}\u{5d5}\u{5e2}\u{5d3} \u{5dc}\u{5d0} \u{5d0}\u{5d5}\u{5e9}\u{5e8} \u{5db}\u{5d9} \u{5d4}\u{5d5}\u{5d0} \u{5d0}\u{5d9}\u{5e0}\u{5d5} \u{5ea}\u{5d5}\u{5d0}\u{5dd} \u{5dc}\u{5d4}\u{5e6}\u{5e2}\u{5d4} \u{5d4}\u{5e0}\u{5d5}\u{5db}\u{5d7}\u{5d9}\u{5ea}. \u{5e0}\u{5e9}\u{5dc}\u{5d7} \u{5de}\u{5d7}\u{5d3}\u{5e9} \u{5d0}\u{5ea} \u{5d4}\u{5de}\u{5d5}\u{5e2}\u{5d3} \u{5d4}\u{5de}\u{5e2}\u{5d5}\u{5d3}\u{5db}\u{5df}."

abbrev pub identity_approval_required : Failure
identity_approval_required =
    app_error "identity_approval_required" 409
      "\u{5e0}\u{5d0} \u{5dc}\u{5d0}\u{5e9}\u{5e8} \u{5ea}\u{5d7}\u{5d9}\u{5dc}\u{5d4} \u{5d0}\u{5ea} \u{5d7}\u{5dc}\u{5e7}\u{5da} \u{5d1}\u{5e4}\u{5e0}\u{5d9}\u{5d9}\u{5d4}."

abbrev pub schedule_party : Env → Request → Party → Party
schedule_party e r p = record p {
  schedule_approved = true;
  schedule_approved_date = r.proposed_run_date;
  schedule_approved_at = some e.now.instant;
}

-- `approve_schedule` by the date that stands proposed.
unfoldable pub approve_proposed : Env → Context → Option ℕ → Request → Option ℕ → Result Request
unfolding approves_date own_party
approve_proposed e ctx date r none = err schedule_approval_mismatch
approve_proposed e ctx date r (some proposal) =
    if not (approves_date e ctx date proposal) then err schedule_approval_mismatch else do
      own ← own_party r ctx.conversation.phone none
      ensure (not (is_none own.approved_at)) identity_approval_required
      ok (record r {
        parties = update (λ p. p.phone == ctx.conversation.phone) (schedule_party e r) r.parties;
      })

unfoldable pub approve_schedule_command : Env → Context → Option ℕ → Request → Result Request
unfolding approve_proposed
approve_schedule_command e ctx date r = approve_proposed e ctx date r r.proposed_run_date

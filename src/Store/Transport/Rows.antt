-- ===== src/Store/Transport/Rows.antt =====
-- src/infrastructure/store.ts: a question to the administrator leaves the requests and the runs alone.
use zolo.Prelude.{
  ℕ, Option, none, some, ◌≡◌, subst, ok, ok_injective, Bool-cases, Option-cases, Result-cases, inl,
  inr, nat_eq, leb, template, show, [], ◌∷◌, template, show, [], ◌∷◌,
}
use zolo.Domain.{Request}
use zolo.Store.Tables.{formatted, Config, Db}
use zolo.Store.Outbox.Rows.{SameRows, SameRows-refl, outbound-SameRows}
use zolo.Store.Transport.{
  CapacityAnswer, max_capacity, capacity_text, added_question, send_question, new_question,
  question_for, ask_for_capacity,
}

sent :
    (config : Config) (r : Request) (date capacity id : ℕ) (db : Db) (x : Option ℕ × Db)
    → send_question config r date capacity id db ≡ ok x
    → SameRows db x.1
unfolding send_question
sent config r date capacity id db x h =
    outbound-SameRows formatted config
      (record { mode = config.bot_mode; phone = some config.admin_phone; chat_id = none })
      (record {
        phone = config.admin_phone;
        text = capacity_text capacity date;
        media_id = none;
        match_id = none;
      })
      (template ("capacity-approval:" ∷ show id ∷ [])) (some r.id) db x h

new_question-SameRows :
    (config : Config) (r : Request) (date capacity : ℕ) (db db' : Db) (answer : CapacityAnswer)
    → new_question config r date capacity db ≡ ok (answer, db')
    → SameRows db db'
unfolding new_question
new_question-SameRows config r date capacity db db' answer h =
    let made = added_question r date capacity db in
    elim (Result-cases (send_question config r date capacity db.fresh made)) [
      | inr (e, bad) ↦ absurd (let k = rw (bad, new_question) at h in cc)
      | inl (x, told) ↦
          let same = ok_injective (rw (told, new_question) at h) in
          let rows = sent config r date capacity db.fresh made x told in
          subst (λ y. SameRows db y.1) same (record { requests = rows.requests; runs = rows.runs })
    ]

pub ask_for_capacity-SameRows :
    (config : Config) (r : Request) (date capacity : ℕ) (db db' : Db) (answer : CapacityAnswer)
    → ask_for_capacity config r date capacity db ≡ ok (answer, db')
    → SameRows db db'
unfolding ask_for_capacity
ask_for_capacity-SameRows config r date capacity db db' answer h =
    elim (Bool-cases (leb max_capacity capacity)) [
      | inl limit ↦
          subst (λ y. SameRows db y.1) (ok_injective (rw (limit, ask_for_capacity) at h))
            (SameRows-refl db)
      | inr below ↦ elim (Option-cases (question_for date capacity db)) [
        | inr (a, known) ↦
            subst (λ y. SameRows db y.1) (ok_injective (rw (below, known, ask_for_capacity) at h))
              (SameRows-refl db)
        | inl new ↦
            new_question-SameRows config r date capacity db db' answer
              (rw (below, new, ask_for_capacity) at h)
      ]
    ]

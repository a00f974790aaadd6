-- ===== src/Examples/Rules.antt =====
-- The rules on items, parties and questions.
use zolo.Prelude.{true, none, [], ◌∷◌, ◌≡◌, ◌↔◌, refl, ok}
use zolo.Domain.{donor}
use zolo.Policies.Items.{item_error}
use zolo.Policies.Items.Rules.{Carried, item_error-Carried}
use zolo.Policies.Parties.{own_party}
use zolo.Policies.Parties.Own.{Answers, own_party-Answers}
use zolo.Policies.Questions.{Asked, next_question}
use zolo.Policies.Questions.Total.{next_question-total}
use zolo.Examples.Data.{unoffered, sofa_item, party, giver}

item_error-Carried_example :
    (item_error (sofa_item ∷ []) true ≡ none) ↔ Carried true (sofa_item ∷ [])
item_error-Carried_example = item_error-Carried true (sofa_item ∷ [])

own_party-Answers_example : Answers unoffered giver none (own_party unoffered giver none)
own_party-Answers_example = own_party-Answers unoffered giver none

finds : own_party unoffered giver none ≡ ok (party donor giver true none)
unfolding own_party
finds = refl

next_question-total_example : (asked : Asked) × (next_question unoffered giver ≡ ok asked)
next_question-total_example = next_question-total unoffered giver refl

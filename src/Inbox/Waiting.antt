-- ===== src/Inbox/Waiting.antt =====
-- src/application/engine.ts: what the merge of the waiting messages keeps.
use zolo.Prelude.{
  String, ◌≡◌, refl, ◌∙◌, Bool, true, not, ◌&&◌, List, [], ◌∷◌, nat_eq, string_eq, option_eq,
  if◌then◌else◌, arith, all, filter, update, inl, inr, Bool-cases, is_empty, and_right,
}
use zolo.Inbox.{Inbox, Row, set_row, has_id}
use zolo.Inbox.Turns.{
  merge, write_merge, merged_text, merged_contacts, waits_for, pending_rows, is_plain, last_row,
  same_ids,
}
use zolo.Inbox.Rows.{below-like, AllLike-update}
use zolo.Inbox.Merging.{coalesced-AllSound, ended-Like}
use zolo.Inbox.Writes.{Sound, Sound-kept, AllKept-plain, Kept-plain}

-- A write that leaves the identifiers and the test leaves the waiting messages.
module _ (phone : String) (p : Row → Bool) (f : Row → Row) (same : (r : Row) → (f r).id ≡ r.id)
    (waits : (r : Row) → waits_for phone (f r) ≡ waits_for phone r) where
  written : Row → Row
  written r = if p r then f r else r

  written-same :
      (r : Row) → ((written r).id ≡ r.id) × (waits_for phone (written r) ≡ waits_for phone r)
  unfolding written
  written-same r = elim (Bool-cases (p r)) [
    | inl e ↦ rw e (same r, waits r)
    | inr e ↦ rw e (refl, refl)
  ]

  update-written : (r : Row) (rows : List Row) → update p f (r ∷ rows) ≡ written r ∷ update p f rows
  unfolding written
  update-written r rows = ground arith

  same_ids-written :
      (rows snapshot : List Row)
      → same_ids (filter (waits_for phone) (update p f rows)) snapshot
        ≡ same_ids (filter (waits_for phone) rows) snapshot
  same_ids-written [] snapshot = refl
  same_ids-written (r ∷ rows) [] =
      rw (update-written r rows) (elim (Bool-cases (waits_for phone r)) [
        | inl e ↦ let k = (written-same r).1 ∙ e in rw (k, e) refl
        | inr e ↦ let k = (written-same r).1 ∙ e in rw (k, e) (same_ids-written rows [])
      ])
  same_ids-written (r ∷ rows) (s ∷ snapshot) =
      rw (update-written r rows) (elim (Bool-cases (waits_for phone r)) [
        | inl e ↦
            let k = (written-same r).1 ∙ e in
            rw (k, e, (written-same r).0, same_ids-written rows snapshot) refl
        | inr e ↦ let k = (written-same r).1 ∙ e in rw (k, e) (same_ids-written rows (s ∷ snapshot))
      ])

write_merge-Sound :
    (phone : String) (first : Row) (rest : List Row) (x : Inbox)
    → same_ids (pending_rows phone x) (first ∷ rest) ≡ true
    → Sound x
    → Sound (write_merge (first ∷ rest) (last_row first rest) x)
unfolding pending_rows
write_merge-Sound phone first rest x e s =
    let joined =
      Sound-kept x
        (set_row (last_row first rest).id
          (λ r. record r {
            text = merged_text (first ∷ rest);
            contacts = merged_contacts (first ∷ rest);
          })
          x)
        (omega arith) (AllKept-plain _ _ (λ r. Kept-plain r _ refl refl refl refl) x.messages) s in
    record {
      below = below-like x.db.fresh (AllLike-update _ _ (ended-Like _) _) joined.below;
      rows =
          coalesced-AllSound phone _ first rest
            (same_ids-written phone (has_id (last_row first rest).id) _ (λ r. refl) (λ r. refl)
                x.messages (first ∷ rest)
              ∙ e)
            joined.rows;
    }

pub merge-Sound :
    (phone : String) (first : Row) (rest : List Row) (x : Inbox)
    → Sound x
    → Sound (merge phone first rest x).1
unfolding merge
merge-Sound phone first rest x s =
    elim (Bool-cases (
      not (is_empty rest)
      && all is_plain (first ∷ rest)
      && same_ids (pending_rows phone x) (first ∷ rest))) [
        | inl e ↦
            rw (e, merge)
              (write_merge-Sound phone first rest x
                (and_right (not (is_empty rest) && all is_plain (first ∷ rest)) _ e) s)
        | inr e ↦ rw (e, merge) s
      ]

-- ===== src/Inbox/Senders.antt =====
-- src/application/engine.ts: what the search for the customer behind a message keeps.
use zolo.Prelude.{
  ℕ, ◌≤◌, String, ◌≡◌, refl, subst, Bool, false, ◌||◌, Option, none, some, nat_eq, string_eq,
  option_eq, ◌==◌, arith, find, inl, inr, Bool-cases, Option-cases, Result-cases, is_some,
  ok_injective, bound, Result, ok, err,
}
use zolo.Store.Tables.{Config, Db, formatted}
use zolo.Inbox.{Inbox, Row, set_row, identity_unresolved, is_processed}
use zolo.Inbox.Turns.{ended}
use zolo.Inbox.Endings.{message, log}
use zolo.Policies.Phone.{canonical_phone}
use zolo.Store.Outbox.Rows.{outbound-Queued}
use zolo.Inbox.Identity.{
  resolve_row, attach, give_up, with_outbox, phone_of, belongs, conversation_for, origin_of,
  identity_notice, identity_key,
}
use zolo.Inbox.Rows.{Kept, AllKept-refl}
use zolo.Inbox.Writes.{Sound, Sound-kept, Kept-ended, Sound-row}

-- The customer behind a message.
Kept-belongs :
    (phone : String) (conversation : ℕ) (r : Row)
    → r.phone ≡ none
    → Kept r (belongs phone conversation r)
Kept-belongs phone conversation r e = record {
  same = record { id = refl; external = refl; phone = λ p f. absurd (cc (e, f)) };
  endings = inl refl;
}

conversation_for-fresh :
    (phone chat : String) (db : Db) → db.fresh ≤ (conversation_for phone chat db).1.fresh
conversation_for-fresh phone chat db =
    elim (Option-cases (find (λ c. c.phone == phone) db.conversations)) [
      | inl e ↦ rw (e, conversation_for) (omega arith)
      | inr (c, e) ↦
          rw (e, conversation_for)
            (elim (Bool-cases (c.chat_id == chat)) [
              | inl f ↦ rw f (omega arith)
              | inr f ↦ rw f (omega arith)
            ])
    ]

no_phone : (o : Option String) (b : Bool) → (is_some o || b) ≡ false → o ≡ none
no_phone none b h = refl
no_phone (some _) b h = absurd (cc)

attach-Sound :
    (m : Row) (phone : String) (x x' : Inbox) → attach m phone x ≡ ok x' → Sound x → Sound x'
unfolding attach
attach-Sound m phone x x' h s =
    let (r, e, k) = bound (message m.id x) _ x' h in
    elim (Bool-cases (is_some r.phone || is_processed r)) [
      | inl t ↦ subst Sound (ok_injective (rw t at k)) s
      | inr t ↦ elim (Result-cases (canonical_phone phone)) [
        | inr (why, bad) ↦ absurd (let c = rw (t, bad) at k in cc)
        | inl (contact, named) ↦ subst Sound (ok_injective (rw (t, named) at k)) (
            Sound-row m.id (belongs contact (conversation_for contact m.chat_id x.db).0) x _ r e
              (Kept-belongs contact _ r (no_phone r.phone _ t))
              (conversation_for-fresh contact m.chat_id x.db) refl s)
      ]
    ]

with_outbox-Sound :
    (x x' : Inbox) (result : Result (Option ℕ × Db))
    → ((a : Option ℕ × Db) → result ≡ ok a → x.db.fresh ≤ a.1.fresh)
    → with_outbox x result ≡ ok x'
    → Sound x
    → Sound x'
with_outbox-Sound x x' (err e) grows h s = absurd (cc)
with_outbox-Sound x x' (ok (id, db)) grows h s =
    subst Sound (ok_injective h) (Sound-kept x _ (grows (id, db) refl) (AllKept-refl x.messages) s)

give_up-Sound :
    (config : Config) (show_id : ℕ → String) (m : Row) (x x' : Inbox)
    → give_up config show_id m x ≡ ok x'
    → Sound x
    → Sound x'
unfolding give_up
give_up-Sound config show_id m x x' h s =
    let (r, e, k) = bound (message m.id x) _ x' h in
    elim (Bool-cases (is_processed r)) [
      | inl t ↦ subst Sound (ok_injective (rw t at k)) s
      | inr t ↦
          let noted =
            log "system" "identity_unresolved" (set_row m.id (ended identity_unresolved) x) in
          with_outbox-Sound noted x' _
            (λ a f.
              (outbound-Queued formatted config (origin_of m) (identity_notice config m)
                (identity_key show_id m) none noted.db a f).fresh)
            (rw t at k)
            (Sound-row m.id (ended identity_unresolved) x _ r e
              (Kept-ended identity_unresolved r (λ i c. absurd (cc)) t) (omega arith) refl s)
    ]

pub resolve_row-Sound :
    (config : Config) (show_id : ℕ → String) (resolve : String → Result String)
    (last_attempt : Bool) (m : Row) (x x' : Inbox)
    → resolve_row config show_id resolve last_attempt m x ≡ ok x'
    → Sound x
    → Sound x'
unfolding resolve_row
resolve_row-Sound config show_id resolve last_attempt m x x' h s =
    elim (Result-cases (phone_of resolve m.chat_id x)) [
      | inl (phone, e) ↦ attach-Sound m phone x x' (rw (e, resolve_row) at h) s
      | inr (why, e) ↦ elim (Bool-cases last_attempt) [
        | inl t ↦ give_up-Sound config show_id m x x' (rw (e, t, resolve_row) at h) s
        | inr t ↦ absurd (let c = rw (e, t, resolve_row) at h in cc)
      ]
    ]

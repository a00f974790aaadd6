-- ===== src/Inbox/Replies.antt =====
-- src/application/engine.ts: what the reply to a message keeps.
use zolo.Prelude.{
  ℕ, ◌≤◌, String, ◌≡◌, refl, subst, Bool, false, not, ◌&&◌, Option, none, some, nat_eq, string_eq,
  option_eq, if◌then◌else◌, arith, any, find, inl, inr, Bool-cases, is_none, ok_injective, bound,
  Result, ok, err, true, List, [], ◌∷◌, All, and_right,
}
use zolo.Store.Tables.{Db}
use zolo.Inbox.{
  Inbox, Row, TurnStatus, turn_completed, turn_superseded, answered, superseded_by, has_id,
  is_processed,
}
use zolo.Inbox.Turns.{ended}
use zolo.Inbox.Endings.{
  message, Body, finish, FixedBody, to_human, write_reply, run_fixed, finish_fixed, log, close_turn,
  complete_turn, count_turn, commit_reply, run_body, superseded, reply_or_yield, is_older, is_newer,
  rows_before, rows_behind, of_message_turn,
}
use zolo.Inbox.Rows.{AllKept-update, Kept, AllKept-refl, AllKept-found, no_endings}
use zolo.Inbox.Writes.{Sound, Sound-kept, released-Kept, message-found}

Kept-replied :
    (reply reason : Option String) (r : Row)
    → is_processed r ≡ false
    → Kept r (ended (answered reason) (record r { reply = reply }))
Kept-replied reply reason r v =
    let none_yet = no_endings r.endings v in
    record {
      same = record { id = refl; external = refl; phone = λ p e. e };
      endings = inr (none_yet, answered reason, rw none_yet refl, λ i c. absurd (cc));
    }

-- Writes of turns and conversations leave the messages.
close_turn-Sound :
    (status : TurnStatus) (turn : Option (ℕ × ℕ)) (x : Inbox)
    → Sound x
    → Sound (close_turn status turn x)
close_turn-Sound status none x s = s
close_turn-Sound status (some turn) x s = Sound-kept x _ (omega arith) (AllKept-refl x.messages) s

log-Sound : (actor kind : String) (x : Inbox) → Sound x → Sound (log actor kind x)
log-Sound actor kind x s = Sound-kept x _ (omega arith) (AllKept-refl x.messages) s

complete_turn-Sound : (turn : Option (ℕ × ℕ)) (x : Inbox) → Sound x → Sound (complete_turn turn x)
complete_turn-Sound turn x s =
    elim (Bool-cases
      (any (λ (r : Row). of_message_turn turn r.turn && not (is_processed r)) x.messages)) [
        | inl e ↦ rw (e, complete_turn) s
        | inr e ↦ rw (e, complete_turn) (close_turn-Sound turn_completed turn x s)
      ]

count_turn-Sound :
    (conversation : Option ℕ) (x : Inbox) → Sound x → Sound (count_turn conversation x)
count_turn-Sound none x s = s
count_turn-Sound (some id) x s = Sound-kept x _ (omega arith) (AllKept-refl x.messages) s

commit_reply-Sound :
    (id : ℕ) (r : Row) (answer : Option String × Option String) (x : Inbox)
    → find (has_id id) x.messages ≡ some r
    → is_processed r ≡ false
    → Sound x
    → Sound (commit_reply id r answer x)
commit_reply-Sound id r (reply, reason) x e v s = count_turn-Sound r.conversation_id _ (
    complete_turn-Sound r.turn _ (
      Sound-kept x _ (omega arith)
        (AllKept-found id (λ q. ended (answered reason) (record q { reply = reply })) x.messages r
          s.rows e (Kept-replied reply reason r v))
        s))

run_body-Sound :
    (id : ℕ) (r : Row) (result : Result ((Option String × Option String) × Db)) (x x' : Inbox)
    → ((db : Db) (a : Option String × Option String) → result ≡ ok (a, db) → x.db.fresh ≤ db.fresh)
    → find (has_id id) x.messages ≡ some r
    → is_processed r ≡ false
    → run_body id r result x ≡ ok x'
    → Sound x
    → Sound x'
run_body-Sound id r (err e) x x' grows found v h s = absurd (cc)
run_body-Sound id r (ok (answer, db)) x x' grows found v h s = subst Sound (ok_injective h) (
    commit_reply-Sound id r answer (record x { db = db }) found v
      (Sound-kept x _ (grows db answer refl) (AllKept-refl x.messages) s))

superseded-Sound : (id : ℕ) (r newer : Row) (x : Inbox) → Sound x → Sound (superseded id r newer x)
superseded-Sound id r newer x s = log-Sound _ _ _ (
    close_turn-Sound turn_superseded r.turn _ (
      Sound-kept x _ (omega arith)
        (released-Kept (superseded_by newer.id) id x.messages (λ i e. absurd (cc))) s))

reply_or_yield-Sound :
    (body : Body) (check : Bool) (id : ℕ) (r : Row) (x x' : Inbox)
    → ((r : Row) (db db' : Db) (a : Option String × Option String)
        → body r db ≡ ok (a, db')
        → db.fresh ≤ db'.fresh)
    → message id x ≡ ok r
    → is_processed r ≡ false
    → reply_or_yield body check id r x ≡ ok x'
    → Sound x
    → Sound x'
reply_or_yield-Sound body check id r x x' grows e v h s =
    by_newer (if check then find (is_newer r.conversation_id) (rows_behind id x.messages) else none)
      refl
  where
    by_newer :
        (newer : Option Row)
        → (if check then find (is_newer r.conversation_id) (rows_behind id x.messages) else none)
          ≡ newer
        → Sound x'
    by_newer (some newer) f =
        subst Sound (ok_injective (rw (f, reply_or_yield) at h)) (superseded-Sound id r newer x s)
    by_newer none f =
        run_body-Sound id r (body r x.db) x x' (λ db a g. grows r x.db db a g)
          (message-found id x r e) v (rw (f, reply_or_yield) at h) s

-- The body of a reply writes no message.
pub finish-Sound :
    (body : Body) (check : Bool) (id : ℕ) (x x' : Inbox)
    → ((r : Row) (db db' : Db) (a : Option String × Option String)
        → body r db ≡ ok (a, db')
        → db.fresh ≤ db'.fresh)
    → finish body check id x ≡ ok x'
    → Sound x
    → Sound x'
unfolding finish
finish-Sound body check id x x' grows h s =
    let (r, e, k) = bound (message id x) _ x' h in
    elim (Bool-cases (is_none r.phone)) [
      | inl t ↦ absurd (let c = rw t at k in cc)
      | inr t ↦ elim (Bool-cases (is_none r.conversation_id)) [
        | inl u ↦ absurd (let c = rw (t, u) at k in cc)
        | inr u ↦ elim (Bool-cases (is_processed r)) [
          | inl v ↦ subst Sound (ok_injective (rw (t, u, v) at k)) s
          | inr v ↦ elim (Bool-cases (any (is_older r.phone) (rows_before id x.messages))) [
            | inl w ↦ absurd (let c = rw (t, u, v, w) at k in cc)
            | inr w ↦ reply_or_yield-Sound body check id r x x' grows e v (rw (t, u, v, w) at k) s
          ]
        ]
      ]
    ]

write_reply-Sound :
    (id : ℕ) (reply : String) (code : Option String) (x : Inbox)
    → Sound x
    → Sound (write_reply id reply code x)
write_reply-Sound id reply code x s =
    Sound-kept x _ (omega arith) (AllKept-update _ _ x.messages (each x.messages)) s
  where
    each :
        (rows : List Row)
        → All
            (λ q.
              (has_id id q && not (is_processed q)) ≡ true
              → Kept q (ended (answered code) (record q { reply = some reply })))
            rows
    each [] = tt
    each (q ∷ rows) = (
      λ e. Kept-replied (some reply) code q (ground (arith, and_right (has_id id q) _ e)),
      each rows,
    )

to_human-Sound : (conversation : Option ℕ) (x : Inbox) → Sound x → Sound (to_human conversation x)
to_human-Sound none x s = s
to_human-Sound (some id) x s = Sound-kept x _ (omega arith) (AllKept-refl x.messages) s

run_fixed-Sound :
    (id : ℕ) (r : Row) (result : Result ((String × Option String × Bool) × Db)) (x x' : Inbox)
    → ((db : Db) (a : String × Option String × Bool) → result ≡ ok (a, db) → x.db.fresh ≤ db.fresh)
    → run_fixed id r result x ≡ ok x'
    → Sound x
    → Sound x'
run_fixed-Sound id r (err e) x x' grows h s = absurd (cc)
run_fixed-Sound id r (ok ((reply, code, human), db)) x x' grows h s =
    let y = write_reply id reply code (record x { db = db }) in
    let kept : Sound y =
      write_reply-Sound id reply code (record x { db = db })
        (Sound-kept x _ (grows db (reply, code, human) refl) (AllKept-refl x.messages) s) in
    elim (Bool-cases human) [
      | inl e ↦
          subst Sound (ok_injective (rw (e, run_fixed) at h))
            (to_human-Sound r.conversation_id y kept)
      | inr e ↦ subst Sound (ok_injective (rw (e, run_fixed) at h)) kept
    ]

pub finish_fixed-Sound :
    (body : FixedBody) (id : ℕ) (x x' : Inbox)
    → ((r : Row) (db db' : Db) (a : String × Option String × Bool)
        → body r db ≡ ok (a, db')
        → db.fresh ≤ db'.fresh)
    → finish_fixed body id x ≡ ok x'
    → Sound x
    → Sound x'
unfolding finish_fixed
finish_fixed-Sound body id x x' grows h s =
    let (r, e, k) = bound (message id x) _ x' h in
    elim (Bool-cases (is_none r.phone)) [
      | inl t ↦ absurd (let c = rw t at k in cc)
      | inr t ↦ elim (Bool-cases (is_none r.conversation_id)) [
        | inl u ↦ absurd (let c = rw (t, u) at k in cc)
        | inr u ↦ elim (Bool-cases (is_processed r)) [
          | inl v ↦ subst Sound (ok_injective (rw (t, u, v) at k)) s
          | inr v ↦
              run_fixed-Sound id r (body r x.db) x x' (λ db a g. grows r x.db db a g)
                (rw (t, u, v) at k) s
        ]
      ]
    ]

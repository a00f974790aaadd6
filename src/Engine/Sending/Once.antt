-- ===== src/Engine/Sending/Once.antt =====
-- src/application/engine.ts: no message is delivered twice, whatever the workers and the provider do.
use zolo.Prelude.{
  ℕ, ◌+◌, ◌≤◌, ◌<◌, String, Bool, true, false, List, [], ◌∷◌, ◌++◌, map, ◌≡◌, refl, sym, ap, ◌∙◌,
  subst, arith, Bool-cases, inl, inr, ok, nat_eq, string_eq, ◌==◌, eq_sound, eq_complete,
  find_holds, find-All, count, count-append, All, All-append, if◌then◌else◌,
}
use zolo.Store.Tables.{Config, Db, Outbound, unsent, sent, uncertain}
use zolo.Store.Outbox.Rows.{Queued, outbound-Queued}
use zolo.Engine.Sending.{
  Answer, accepted, rejected, unknown, claimed, skipped, reconcile, has_id, write_row, in_state,
  present, next_job, claim, settle,
}
use zolo.Engine.Sending.Claims.{
  is_open, Idle, Below, Keeps, Keeps-refl, Keeps-trans, write_row-Keeps, in_state-Closes,
  present-Keeps, claim-Effect,
}
use zolo.Engine.Sending.World.{
  Call, World, Tells, took, refused, either, deliveries, Step, begins, passes, defers, ends, dies,
  queues, rewords, elsewhere, Reach, here, onward,
}
use zolo.Engine.Sending.Uses.{
  of_call, is_id, uses, Idle-le, Idle-reopened, Below-reopened, All-update_first, All-weaken,
  calls-weaken, rows-weaken, calls_none, taken_none, test_of_ne, used_once, All-without, All-middle,
  All-map, Idle-rest,
}

pub record Sound (w : World) : Type 0 where
  pub rows_below : All (Below w.db.fresh) w.db.outbox
  pub calls_below : All (λ (c : Call). c.id < w.db.fresh) w.calls
  pub taken_below : All (λ (i : ℕ). i < w.db.fresh) w.taken
  pub once : (id : ℕ) → uses w id ≤ 1
  pub idle : All (Idle (uses w)) w.db.outbox

next_job-Keeps : (phone : String) (db : Db) → Keeps db (next_job phone db)
next_job-Keeps phone db = record {
  fresh = refl;
  below = λ n h. All-update_first (Below n) _ _ db.outbox (λ o k. k) h;
  idle = λ uses h. All-update_first (Idle uses) _ _ db.outbox (λ o k. k) h;
}

accepted-Keeps :
    (id : ℕ) (o : Outbound) (code : String) (db : Db) → Keeps db (settle id o (accepted code) db)
unfolding settle
accepted-Keeps id o code db =
    let db₁ = write_row id (in_state sent) db in
    Keeps-trans db db₁ _ (write_row-Keeps id (in_state sent) db (in_state-Closes sent refl)) (
      Keeps-trans db₁ (present o.match_id db₁) _ (present-Keeps o.match_id db₁)
        (next_job-Keeps o.phone _))

unknown-Keeps :
    (id : ℕ) (o : Outbound) (code : String) (db : Db) → Keeps db (settle id o (unknown code) db)
unfolding settle
unknown-Keeps id o code db =
    write_row-Keeps id (in_state uncertain) db (in_state-Closes uncertain refl)

-- A step that delivers nothing.
Sound-kept : (w : World) (db' : Db) → Keeps w.db db' → Sound w → Sound (record w { db = db' })
Sound-kept w db' k s = record {
  rows_below = rw k.fresh (k.below w.db.fresh s.rows_below);
  calls_below = rw k.fresh s.calls_below;
  taken_below = rw k.fresh s.taken_below;
  once = s.once;
  idle = k.idle (uses w) s.idle;
}

Sound-begins :
    (config : Config) (w : World) (id : ℕ) (o : Outbound) (db' : Db)
    → claim config id w.db ≡ ok (claimed o, db')
    → Sound w
    → Sound (record w { db = db'; calls = record { id = id; row = o } ∷ w.calls })
Sound-begins config w id o db' h s =
    let b = claim-Effect config id w.db db' (claimed o) h in
    let own = eq_sound b.row.id id (find_holds (has_id id) w.db.outbox b.row b.found) in
    let low : id < w.db.fresh =
      subst (λ i. i < w.db.fresh) own
        (find-All (Below w.db.fresh) (has_id id) w.db.outbox b.row s.rows_below b.found) in
    let unused : uses w id ≡ 0 =
      subst (λ i. uses w i ≡ 0) own
        (find-All (Idle (uses w)) (has_id id) w.db.outbox b.row s.idle b.found b.open_row) in
    record {
      rows_below = rw b.fresh (b.below w.db.fresh s.rows_below);
      calls_below = (
        rw b.fresh low,
        subst (λ n. All (λ (c : Call). c.id < n) w.calls) (sym b.fresh) s.calls_below,
      );
      taken_below = rw b.fresh s.taken_below;
      once = used_once id w unused s.once;
      idle = b.idle (uses w) _ (λ j differs. rw (test_of_ne id j differs) refl) s.idle;
    }

-- The uses of a row behind a call that is over, whether WhatsApp took the row or not.
module _ (before behind : List Call) (c : Call) (happened : Bool) (w : World)
    (split : w.calls ≡ before ++ c ∷ behind) where
  over : World
  over = record w { calls = before ++ behind; taken = deliveries happened c.id w.taken }

  calls-over :
      (j : ℕ)
      → count (of_call j) w.calls
        ≡ count (of_call j) (before ++ behind) + (if c.id == j then 1 else 0)
  calls-over j = rw (split) (
      ground (
        arith,
        count-append (of_call j) before (c ∷ behind),
        count-append (of_call j) before behind,
      ))

  uses-over : (j : ℕ) → uses over j ≤ uses w j
  unfolding over
  uses-over j = elim (Bool-cases happened) [
    | inl did ↦ rw did (ground (arith, calls-over j))
    | inr did_not ↦ rw did_not (ground (arith, calls-over j))
  ]

  -- A refusal leaves its row unused.
  uses-refused : happened ≡ false → uses w c.id ≤ 1 → uses over c.id ≡ 0
  unfolding over
  uses-refused no_delivery once =
      rw no_delivery (ground (arith, calls-over c.id, eq_complete c.id c.id refl))

  calls_below-over :
      (n : ℕ)
      → All (λ (x : Call). x.id < n) w.calls
      → All (λ (x : Call). x.id < n) (before ++ behind)
  calls_below-over n h =
      All-without n before behind c (subst (All (λ (x : Call). x.id < n)) split h)

  id-over : (n : ℕ) → All (λ (x : Call). x.id < n) w.calls → c.id < n
  id-over n h = All-middle n before behind c (subst (All (λ (x : Call). x.id < n)) split h)

  taken_below-over :
      (n : ℕ)
      → c.id < n
      → All (λ (i : ℕ). i < n) w.taken
      → All (λ (i : ℕ). i < n) (deliveries happened c.id w.taken)
  taken_below-over n low h = elim (Bool-cases happened) [
    | inl did ↦ rw did (low, h)
    | inr did_not ↦ rw did_not h
  ]

  once-over : ((j : ℕ) → uses w j ≤ 1) → (j : ℕ) → uses over j ≤ 1
  once-over once j = let a = once j in let b = uses-over j in omega arith

  -- The end of a call where the database keeps what counts.
  Sound-over : (db' : Db) → Keeps w.db db' → Sound w → Sound (record over { db = db' })
  unfolding over
  Sound-over db' k s = Sound-kept over db' k (record {
    rows_below = s.rows_below;
    calls_below = calls_below-over w.db.fresh s.calls_below;
    taken_below = taken_below-over w.db.fresh (id-over w.db.fresh s.calls_below) s.taken_below;
    once = once-over s.once;
    idle = Idle-le (uses w) (uses over) w.db.outbox uses-over s.idle;
  })

  -- A refusal opens its row again.
  Sound-refused :
      (code : String)
      → happened ≡ false
      → Sound w
      → Sound (record over { db = settle c.id c.row (rejected code) w.db })
  unfolding over settle
  Sound-refused code none_delivered s = record {
    rows_below = Below-reopened w.db.fresh c.id unsent w.db.outbox s.rows_below;
    calls_below = calls_below-over w.db.fresh s.calls_below;
    taken_below = taken_below-over w.db.fresh (id-over w.db.fresh s.calls_below) s.taken_below;
    once = once-over s.once;
    idle =
        Idle-reopened (uses over) c.id unsent w.db.outbox
          (uses-refused none_delivered (s.once c.id))
          (Idle-le (uses w) (uses over) w.db.outbox uses-over s.idle);
  }

Sound-ends :
    (before behind : List Call) (c : Call) (answer : Answer) (happened : Bool) (w : World)
    → w.calls ≡ before ++ c ∷ behind
    → Tells answer happened
    → Sound w
    → Sound (record {
      db = settle c.id c.row answer w.db;
      calls = before ++ behind;
      taken = deliveries happened c.id w.taken;
    })
unfolding over
Sound-ends before behind c _ _ w split (took code) s =
    Sound-over before behind c true w split _ (accepted-Keeps c.id c.row code w.db) s
Sound-ends before behind c _ _ w split (refused code) s =
    Sound-refused before behind c false w split code refl s
Sound-ends before behind c _ _ w split (either code happened) s =
    Sound-over before behind c happened w split _ (unknown-Keeps c.id c.row code w.db) s

Sound-dies :
    (before behind : List Call) (c : Call) (happened : Bool) (w : World)
    → w.calls ≡ before ++ c ∷ behind
    → Sound w
    → Sound (record w { calls = before ++ behind; taken = deliveries happened c.id w.taken })
unfolding over
Sound-dies before behind c happened w split s =
    Sound-over before behind c happened w split w.db (Keeps-refl w.db) s

map-Keeps :
    (f : Outbound → Outbound) (db : Db)
    → ((o : Outbound) → (f o).id ≡ o.id)
    → ((o : Outbound) → (f o).state ≡ o.state)
    → Keeps db (record db { outbox = map f db.outbox })
map-Keeps f db same_id same_state = record {
  fresh = refl;
  below = λ n. All-map (Below n) f db.outbox (λ o h. subst (λ i. i < n) (sym (same_id o)) h);
  idle = λ uses.
      All-map (Idle uses) f db.outbox
        (λ o h k. ap uses (same_id o) ∙ h (ap is_open (sym (same_state o)) ∙ k));
}

unused_fresh : (w : World) → Sound w → uses w w.db.fresh ≡ 0
unused_fresh w s = omega (
  arith,
  calls_none w.db.fresh w.calls s.calls_below,
  taken_none w.db.fresh w.taken s.taken_below,
)

Sound-queues : (w : World) (db' : Db) → Queued w.db db' → Sound w → Sound (record w { db = db' })
Sound-queues w db' q s = record {
  rows_below =
      (let kept = rows-weaken w.db.fresh db'.fresh w.db.outbox q.fresh s.rows_below in
        elim q.rows [
          | inl same ↦ subst (All (Below db'.fresh)) (sym same) kept
          | inr (o, own, low, more) ↦
              subst (All (Below db'.fresh)) (sym more)
                (All-append _ w.db.outbox (o ∷ []) kept (omega (arith, own, low), tt))
        ]);
  calls_below = calls-weaken w.db.fresh db'.fresh w.calls q.fresh s.calls_below;
  taken_below = All-weaken w.db.fresh db'.fresh w.taken q.fresh s.taken_below;
  once = s.once;
  idle = elim q.rows [
    | inl same ↦ subst (All (Idle (uses w))) (sym same) s.idle
    | inr (o, own, low, more) ↦
        subst (All (Idle (uses w))) (sym more)
          (All-append _ w.db.outbox (o ∷ []) s.idle (λ k. ap (uses w) own ∙ unused_fresh w s, tt))
  ];
}

Step-Sound : (config : Config) {w w' : World} → Step config w w' → Sound w → Sound w'
Step-Sound config (begins w id o db' h) s = Sound-begins config w id o db' h s
Step-Sound config (passes w id db' h) s =
    Sound-kept w db' (claim-Effect config id w.db db' skipped h) s
Step-Sound config (defers w id db' h) s =
    Sound-kept w db' (claim-Effect config id w.db db' reconcile h) s
Step-Sound config (ends w before behind c answer happened split tells) s =
    Sound-ends before behind c answer happened w split tells s
Step-Sound config (dies w before behind c happened split) s =
    Sound-dies before behind c happened w split s
Step-Sound config (queues w format ctx n key request_id id db' h) s =
    Sound-queues w db' (outbound-Queued format config ctx n key request_id w.db (id, db') h) s
Step-Sound config (rewords w f same_id same_state) s =
    Sound-kept w _ (map-Keeps f w.db same_id same_state) s
Step-Sound config (elsewhere w db' rows fresh) s =
    Sound-queues w db' (record { fresh = fresh; rows = inl rows }) s

pub Reach-Sound :
    (config : Config) (start : World) {w : World} → Sound start → Reach config start w → Sound w
Reach-Sound config start s here = s
Reach-Sound config start s (onward r st) = Step-Sound config st (Reach-Sound config start s r)

-- The program before it delivers anything.
abbrev pub at_rest : Db → World
at_rest db = record { db = db; calls = []; taken = [] }

-- From tables whose outbox has identifiers that were given out, whatever workers claim rows and
-- however calls of the provider end (accepted, refused, of unknown outcome, or cut off with their
-- process), while messages are queued and reworded and the other tables change, WhatsApp takes a
-- row of the outbox once at most, provided that the provider takes a call once and takes none that
-- it refuses.
pub Reach-once :
    (config : Config) (db : Db) {w : World} (id : ℕ)
    → All (Below db.fresh) db.outbox
    → Reach config (at_rest db) w
    → count (is_id id) w.taken ≤ 1
Reach-once config db {w} id below r =
    let s =
      Reach-Sound config (at_rest db)
        (record {
          rows_below = below;
          calls_below = tt;
          taken_below = tt;
          once = λ j. omega arith;
          idle = Idle-rest db.outbox;
        })
        r in
    let o = s.once id in omega arith

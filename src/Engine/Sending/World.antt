-- ===== src/Engine/Sending/World.antt =====
-- src/application/engine.ts: the workers, the provider and the rest of the program around the outbox.
use zolo.Prelude.{
  ℕ, ◌≤◌, String, Bool, true, false, Option, List, ◌∷◌, ◌++◌, ◌≡◌, if◌then◌else◌, ok, map,
}
use zolo.Domain.{Notice}
use zolo.Store.Tables.{Config, Db, Outbound, FormatState}
use zolo.Store.Outbox.{Origin, outbound}
use zolo.Engine.Sending.{
  Answer, accepted, rejected, unknown, skipped, reconcile, claimed, claim, settle,
}

-- A call of the provider that has not been settled: the row that was claimed.
pub record Call : Type 0 where
  pub id : ℕ
  pub row : Outbound

-- The tables, the calls that run, and the rows that WhatsApp took, once for each time.
pub record World : Type 0 where
  pub db : Db
  pub calls : List Call
  pub taken : List ℕ

-- What an answer says of the delivery: `accepted` that it happened, `rejected` that it did not.
pub data Tells : Answer → Bool → Type 0 where
  took : (provider_id : String) → Tells (accepted provider_id) true
  refused : (code : String) → Tells (rejected code) false
  either : (code : String) (happened : Bool) → Tells (unknown code) happened

abbrev pub deliveries : Bool → ℕ → List ℕ → List ℕ
deliveries happened id taken = if happened then id ∷ taken else taken

-- A worker claims a row, a call ends or its process dies, a message is queued, a text is reworded,
-- and the rest of the program writes to the other tables.
pub data Step (config : Config) : World → World → Type 0 where
  begins :
      (w : World) (id : ℕ) (o : Outbound) (db' : Db)
      → claim config id w.db ≡ ok (claimed o, db')
      → Step config w (record w { db = db'; calls = record { id = id; row = o } ∷ w.calls })
  passes :
      (w : World) (id : ℕ) (db' : Db)
      → claim config id w.db ≡ ok (skipped, db')
      → Step config w (record w { db = db' })
  defers :
      (w : World) (id : ℕ) (db' : Db)
      → claim config id w.db ≡ ok (reconcile, db')
      → Step config w (record w { db = db' })
  ends :
      (w : World) (before behind : List Call) (c : Call) (answer : Answer) (happened : Bool)
      → w.calls ≡ before ++ c ∷ behind
      → Tells answer happened
      → Step config w (record {
        db = settle c.id c.row answer w.db;
        calls = before ++ behind;
        taken = deliveries happened c.id w.taken;
      })
  dies :
      (w : World) (before behind : List Call) (c : Call) (happened : Bool)
      → w.calls ≡ before ++ c ∷ behind
      → Step config w
          (record w { calls = before ++ behind; taken = deliveries happened c.id w.taken })
  queues :
      (w : World) (format : FormatState) (ctx : Origin) (n : Notice) (key : String)
      (request_id id : Option ℕ) (db' : Db)
      → outbound format config ctx n key request_id w.db ≡ ok (id, db')
      → Step config w (record w { db = db' })
  rewords :
      (w : World) (f : Outbound → Outbound)
      → ((o : Outbound) → (f o).id ≡ o.id)
      → ((o : Outbound) → (f o).state ≡ o.state)
      → Step config w (record w { db = record w.db { outbox = map f w.db.outbox } })
  elsewhere :
      (w : World) (db' : Db)
      → db'.outbox ≡ w.db.outbox
      → w.db.fresh ≤ db'.fresh
      → Step config w (record w { db = db' })

pub data Reach (config : Config) (start : World) : World → Type 0 where
  here : Reach config start start
  onward : {w w' : World} → Reach config start w → Step config w w' → Reach config start w'

-- ===== src/Inbox/Once.antt =====
-- src/application/engine.ts and src/infrastructure/store.ts: the steps that write messages, in any
-- order. A step takes the rows that it read earlier as they were then, whatever happened since.
use zolo.Prelude.{ℕ, ◌≤◌, String, ◌≡◌, Bool, Option, List, nat_eq, string_eq, option_eq, Result, ok}
use zolo.Domain.{Mode}
use zolo.Media.{StoredMedia}
use zolo.Store.Tables.{Config, Db}
use zolo.Inbox.{Inbox, Row, ParsedMessage, ingest}
use zolo.Inbox.Turns.{admit, merge}
use zolo.Inbox.Endings.{
  deny, release, captured, capture_failed, Body, finish, FixedBody, finish_fixed,
}
use zolo.Inbox.Identity.{resolve_row}
use zolo.Inbox.Writes.{
  Sound, release-Sound, deny-Sound, capture_failed-Sound, captured-Sound, ingest-Sound, admit-Sound,
}
use zolo.Inbox.Waiting.{merge-Sound}
use zolo.Inbox.Replies.{finish-Sound, finish_fixed-Sound}
use zolo.Inbox.Senders.{resolve_row-Sound}

-- One step of the service. The body of a reply takes no identifier twice.
pub data Step : Inbox → Inbox → Type 0 where
  arrives :
      (x : Inbox) (session : String) (show_id : ℕ → String) (p : ParsedMessage) (mode : Mode)
      (file : Option StoredMedia)
      → Step x (ingest session show_id p mode file x).1
  identified :
      (x x' : Inbox) (config : Config) (show_id : ℕ → String) (resolve : String → Result String)
      (last_attempt : Bool) (m : Row)
      → resolve_row config show_id resolve last_attempt m x ≡ ok x'
      → Step x x'
  admitted : (x x' : Inbox) (snapshot : List Row) → admit snapshot x ≡ ok x' → Step x x'
  merged :
      (x : Inbox) (phone : String) (first : Row) (rest : List Row)
      → Step x (merge phone first rest x).1
  refused : (x x' : Inbox) (id : ℕ) → deny id x ≡ ok x' → Step x x'
  freed : (x : Inbox) (code : String) (id : ℕ) → Step x (release code id x)
  has_file : (x x' : Inbox) (id : ℕ) (file : StoredMedia) → captured id file x ≡ ok x' → Step x x'
  no_file : (x : Inbox) (id : ℕ) → Step x (capture_failed id x)
  replied :
      (x x' : Inbox) (body : Body) (check : Bool) (id : ℕ)
      → ((r : Row) (db db' : Db) (a : Option String × Option String)
          → body r db ≡ ok (a, db')
          → db.fresh ≤ db'.fresh)
      → finish body check id x ≡ ok x'
      → Step x x'
  closed :
      (x x' : Inbox) (body : FixedBody) (id : ℕ)
      → ((r : Row) (db db' : Db) (a : String × Option String × Bool)
          → body r db ≡ ok (a, db')
          → db.fresh ≤ db'.fresh)
      → finish_fixed body id x ≡ ok x'
      → Step x x'

pub data Reach (start : Inbox) : Inbox → Type 0 where
  here : Reach start start
  onward : {x y : Inbox} → Reach start x → Step x y → Reach start y

Step-Sound : {x y : Inbox} → Step x y → Sound x → Sound y
Step-Sound (arrives x session show_id p mode file) s = ingest-Sound session show_id p mode file x s
Step-Sound (identified x x' config show_id resolve last m e) s =
    resolve_row-Sound config show_id resolve last m x x' e s
Step-Sound (admitted x x' snapshot e) s = admit-Sound snapshot x x' e s
Step-Sound (merged x phone first rest) s = merge-Sound phone first rest x s
Step-Sound (refused x x' id e) s = deny-Sound id x x' e s
Step-Sound (freed x code id) s = release-Sound code id x s
Step-Sound (has_file x x' id file e) s = captured-Sound id file x x' e s
Step-Sound (no_file x id) s = capture_failed-Sound id x s
Step-Sound (replied x x' body check id grows e) s = finish-Sound body check id x x' grows e s
Step-Sound (closed x x' body id grows e) s = finish_fixed-Sound body id x x' grows e s

-- Whatever messages arrive and in whatever order these steps run, each on rows that it read at any
-- earlier time, the invariant of the messages is kept: no identifier and no external identifier
-- stands twice, no message is ended twice, and a message that was joined into another one stands
-- before it and is of the same customer. The steps are ingest, the resolution of a sender, the
-- admission and the joining of waiting messages, the denial, the release of a failed turn, the two
-- writes of capture, finish, and the frame that finishFault, finishUnclear, finishPhotoHold,
-- finishOutside and finishPressure share. The bodies of finish and of those five must not take an
-- identifier twice, and write no message.
pub Reach-Sound : {start x : Inbox} → Sound start → Reach start x → Sound x
Reach-Sound s here = s
Reach-Sound s (onward r step) = Step-Sound step (Reach-Sound s r)

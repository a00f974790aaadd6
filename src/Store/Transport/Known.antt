-- ===== src/Store/Transport/Known.antt =====
-- src/infrastructure/store.ts: what `coordinate` has been told of a request that it coordinates.
use zolo.Prelude.{Bool, ◌≡◌, ap, ok, Bool-cases, inl, inr}
use zolo.Domain.{Request}
use zolo.Policies.Calendar.{Now}
use zolo.Policies.Readiness.{ready_to_coordinate}
use zolo.Policies.Readiness.Consent.{ready_to_coordinate-Agreed}
use zolo.Policies.Readiness.Known.{Movable, ready_to_propose_schedule-Movable}
use zolo.Store.Tables.{Config, Db}
use zolo.Store.Transport.{now_coordinated, coordinate}
use zolo.Store.Transport.Room.{coordinate-Granted}

-- A request that coordinate makes coordinated was collecting, available, awaiting approval or
-- waiting for capacity, and, when it is direct, one customer speaks for both parties or the other
-- party was contacted; its items are ones that the service carries with a photograph, each said to
-- be free and working, with a wardrobe small enough to go whole, the type of an oven known, no
-- evacuation of another kind and, but for direct requests, appliances and wardrobes, with an
-- answer on whether it has to be taken apart; each party has a name, a settlement and an address;
-- and coordinate leaves the items and the parties as they were.
pub coordinate-Movable :
    (config : Config) (r r' : Request) (now : Now) (admin : Bool) (db db' : Db)
    → coordinate config r now admin db ≡ ok ((now_coordinated, r'), db')
    → Movable r × (r'.items ≡ r.items) × (r'.parties ≡ r.parties)
unfolding coordinate
coordinate-Movable config r r' now admin db db' h = elim (Bool-cases (ready_to_coordinate r)) [
  | inr not_so ↦ absurd (let k = rw (not_so, coordinate) at h in cc)
  | inl agree ↦
      let placed = (coordinate-Granted config r r' now admin db db' h).scheduled_on in
      (
        ready_to_propose_schedule-Movable r ((ready_to_coordinate-Agreed r).0 agree).0,
        ap (λ x. x.items) placed,
        ap (λ x. x.parties) placed,
      )
]

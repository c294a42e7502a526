-- ===== src/Service.antt =====
-- MOSService of src/internal/service/mos.go, over the in-memory repositories, with the writes that its
-- methods make. A method's calls of time.Now are one instant, its argument `now`.
pub mod Timing
pub mod Messages
pub mod Workflow
pub mod StoryBodies
pub mod StorySend
pub mod Control
pub mod ObjectStore
pub mod Identity
pub mod Records
pub mod StoryActions
pub mod ItemActions
pub mod ElementAction
pub mod Publishing
pub mod OnAir
use open_mos.Prelude.{List, [], ◌∷◌, Option, none, some}
use open_mos.Text.{Text, text}
use open_mos.Outcome.{Result, ok, err}
use open_mos.Exec.{Exec}
use open_mos.Model.{MosObject, Item, Story, RunningOrder}
use open_mos.Table.{Table}
use open_mos.Repository.Stories
use open_mos.Repository.Items
use open_mos.Repository.Objects
use open_mos.Repository.RunningOrders
use open_mos.Events.{EventBus, Event, identifier, publish, running_order_updated}

pub record MosService : Type 0 where
  pub running_orders : Table RunningOrder
  pub stories : Table Story
  pub items : Table Item
  pub objects : Table MosObject
  pub event_bus : Option EventBus

-- A write to a repository: the new table, or its error and the old one.
abbrev set_stories : MosService → Result (Table Story) → Result (Unit {0}) × MosService
set_stories s (ok t) = (ok tt, record s { stories = t })
set_stories s (err e) = (err e, s)

abbrev set_items : MosService → Result (Table Item) → Result (Unit {0}) × MosService
set_items s (ok t) = (ok tt, record s { items = t })
set_items s (err e) = (err e, s)

abbrev set_running_orders :
    MosService → Result (Table RunningOrder) → Result (Unit {0}) × MosService
set_running_orders s (ok t) = (ok tt, record s { running_orders = t })
set_running_orders s (err e) = (err e, s)

abbrev pub create_story : Story → Exec MosService (Unit {0})
create_story x s = set_stories s (Stories.create x s.stories)

abbrev pub update_story : Story → Exec MosService (Unit {0})
update_story x s = set_stories s (Stories.update x s.stories)

abbrev pub delete_story : Text → Exec MosService (Unit {0})
delete_story k s = (ok tt, record s { stories = Stories.delete k s.stories })

abbrev pub delete_stories : List Text → Exec MosService (Unit {0})
delete_stories ks s = (ok tt, record s { stories = Stories.delete_multiple ks s.stories })

abbrev pub create_item : Item → Exec MosService (Unit {0})
create_item x s = set_items s (Items.create x s.items)

abbrev pub update_item : Item → Exec MosService (Unit {0})
update_item x s = set_items s (Items.update x s.items)

abbrev pub delete_item : Text → Exec MosService (Unit {0})
delete_item k s = (ok tt, record s { items = Items.delete k s.items })

abbrev pub delete_items : List Text → Exec MosService (Unit {0})
delete_items ks s = (ok tt, record s { items = Items.delete_multiple ks s.items })

abbrev pub update_running_order : RunningOrder → Exec MosService (Unit {0})
update_running_order x s = set_running_orders s (RunningOrders.update x s.running_orders)

abbrev pub create_running_order : RunningOrder → Exec MosService (Unit {0})
create_running_order x s = set_running_orders s (RunningOrders.create x s.running_orders)

abbrev pub delete_running_order_record : Text → Exec MosService (Unit {0})
delete_running_order_record k s =
    (ok tt, record s { running_orders = RunningOrders.delete k s.running_orders })

abbrev set_objects : MosService → Result (Table MosObject) → Result (Unit {0}) × MosService
set_objects s (ok t) = (ok tt, record s { objects = t })
set_objects s (err e) = (err e, s)

abbrev pub create_object : MosObject → Exec MosService (Unit {0})
create_object x s = set_objects s (Objects.create x s.objects)

abbrev pub update_object : MosObject → Exec MosService (Unit {0})
update_object x s = set_objects s (Objects.update x s.objects)

-- s.eventBus.Publish behind its nil check
abbrev pub publish_event : Event → Exec MosService (Unit {0})
publish_event e s = elim s.event_bus [
  | none ↦ (ok tt, s)
  | some bus ↦ (ok tt, record s { event_bus = some (publish e bus) })
]

-- publishROUpdate (service/element_action.go)
abbrev pub publish_ro_update : Text → Exec MosService (Unit {0})
publish_ro_update ro = publish_event (record {
  event_type = running_order_updated;
  payload = identifier ro;
  source = text "mos_service";
})

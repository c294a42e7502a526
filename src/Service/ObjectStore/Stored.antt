-- ===== src/Service/ObjectStore/Stored.antt =====
-- StoreObject of src/internal/service/mos.go, and what GetObject then returns.
use open_mos.Prelude.{◌≡◌, ◌≢◌, refl, sym, ap, ◌∙◌, some, none, arith}
use open_mos.Text.{Text}
use open_mos.Text.Number.{ℤ}
use open_mos.Outcome.{Result, ok, err}
use open_mos.Model.{Time, MosObject}
use open_mos.Table.{lookup, put}
use open_mos.Table.Laws.{IsKeyed, ident_of_lookup, lookup-put_self, lookup-put_ne}
use open_mos.Repository
use open_mos.Repository.Objects
use open_mos.Wire.Objects.{MosObj}
use open_mos.Events.{Event, identifier, object_created, object_updated}
use open_mos.Service.{MosService, create_object, update_object, publish_event}
use open_mos.Service.Publishing.{publish-ok}
use open_mos.Service.StorySend.{service_event}
use open_mos.Service.Workflow.Stored.{held_none, held_some, get-some}
use open_mos.Service.ObjectStore.{
  object_of, merge_object, store_object, store_found_object, get_object, object_message,
}

abbrev pub object_ident : MosObject → Text
object_ident o = o.id

-- The object that a mosObj leaves.
abbrev pub object_after : Time → MosObj → Result MosObject → MosObject
object_after now m (err e) = object_of now m
object_after now m (ok old) = merge_object now m old

-- The fields of a mosObj that are replaced whenever one arrives.
abbrev pub object_head : MosObj → Text × Text × Text × Text × ℤ × ℤ
object_head m = (m.obj_id, m.obj_slug, m.mos_abstract, m.obj_type, m.obj_tb, m.obj_dur)

abbrev pub held_head : MosObject → Text × Text × Text × Text × ℤ × ℤ
held_head o = (o.id, o.slug, o.mos_abstract, o.object_type, o.time_base, o.duration)

create_object-eq :
    (x : MosObject) (s : MosService)
    → lookup x.id s.objects ≡ none
    → create_object x s ≡ (ok tt, record s { objects = put x.id x s.objects })
unfolding Repository.create
create_object-eq x s e = rw (e, Repository.create) refl

update_object-eq :
    (x old : MosObject) (s : MosService)
    → lookup x.id s.objects ≡ some old
    → update_object x s ≡ (ok tt, record s { objects = put x.id x s.objects })
unfolding Repository.update
update_object-eq x old s e = rw (e, Repository.update) refl

objects-publish : (e : Event) (s : MosService) → (publish_event e s).1.objects ≡ s.objects
objects-publish e s = ground arith

-- The object that is written, and what is published of it.
store_found_object-run :
    (now : Time) (m : MosObj) (s : MosService) (r : Result MosObject)
    → IsKeyed object_ident s.objects
    → Objects.get m.obj_id s.objects ≡ r
    → (event : Event) × (object_head m ≡ held_head (object_after now m r))
      × (store_found_object now m r s
          ≡ publish_event event
              (record s { objects = put m.obj_id (object_after now m r) s.objects }))
unfolding object_of merge_object
store_found_object-run now m s (err e) k h = (
  service_event object_created (identifier m.obj_id),
  refl,
  rw (create_object-eq (object_of now m) s (held_none m.obj_id s.objects e h)) refl,
)
store_found_object-run now m s (ok old) k h =
    let l = held_some m.obj_id s.objects old h in
    let q = ident_of_lookup object_ident m.obj_id old s.objects k l in
    let x = merge_object now m old in
    let event = service_event object_updated (identifier m.obj_id) in
    (
      event,
      ap (λ (j : Text). (j, m.obj_slug, m.mos_abstract, m.obj_type, m.obj_tb, m.obj_dur)) (sym q),
      rw (update_object-eq x old s (ap (λ j. lookup j s.objects) q ∙ l))
          (ap (λ (j : Text). publish_event event (record s { objects = put j x s.objects })) q),
    )

-- StoreObject succeeds, and GetObject then returns the identifier, slug, abstract, type, time base and
-- duration of the message, whether or not the object was held before; every other object is returned
-- as it was. Objects are to stand under their identifiers.
pub get_object-store_object :
    (format_time : Time → Text) (now : Time) (m : MosObj) (s : MosService)
    → IsKeyed object_ident s.objects
    → ((store_object now m s).0 ≡ ok tt)
      × ((o : MosObj) × (get_object format_time m.obj_id (store_object now m s).1 ≡ ok o)
          × (object_head o ≡ object_head m))
      × ((other : Text)
          → m.obj_id ≢ other
          → get_object format_time other (store_object now m s).1 ≡ get_object format_time other s)
unfolding store_object get_object object_message Repository.get
get_object-store_object format_time now m s k =
    let r = Objects.get m.obj_id s.objects in
    let (event, head, run) = store_found_object-run now m s r k refl in
    let x = object_after now m r in
    let u : MosService = record s { objects = put m.obj_id x s.objects } in
    rw run (
      publish-ok event u,
      (
        object_message format_time x,
        rw (objects-publish event u) (
            rw
              (get-some m.obj_id x (put m.obj_id x s.objects)
                (lookup-put_self m.obj_id x s.objects))
              refl),
        sym head,
      ),
      λ other d.
          rw (objects-publish event u)
            (rw (lookup-put_ne m.obj_id other x s.objects d, Repository.get) refl),
    )

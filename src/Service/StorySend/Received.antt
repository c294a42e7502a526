-- ===== src/Service/StorySend/Received.antt =====
-- What ProcessROStorySend of src/internal/service/control.go leaves behind.
use open_mos.Prelude.{
  ℕ, suc, ◌≡◌, ◌≢◌, refl, List, [], ◌∷◌, All, some, sym, ap, ◌∙◌, Bool-cases, inl, inr, subst,
  false,
}
use open_mos.Cues.{Casing}
use open_mos.Text.{Text, same}
use open_mos.Outcome.{ok, Result, err, Error, unknown_running_order}
use open_mos.Model.{Time, Item, Story, RunningOrder}
use open_mos.Repository
use open_mos.Repository.Stories
use open_mos.Repository.RunningOrders
use open_mos.Table.{Table, lookup, put}
use open_mos.Table.Laws.{
  IsKeyed, IsKeyed-put, lookup-put, lookup-put_self, lookup-put_ne, ident_of_lookup,
}
use open_mos.Service.{MosService, update_story, publish_event}
use open_mos.Service.Identity.{item_persistence_id, story_persistence_id}
use open_mos.Service.Timing.{Floats}
use open_mos.Service.Workflow.{store_items}
use open_mos.Service.Workflow.Stored.{
  store_item-put, item_ident, story_ident, create_story-eq, held_none, held_some,
}
use open_mos.Wire.{ItemInfo}
use open_mos.Service.StorySend.{
  sent_story, merge_sent, send_found, process_ro_story_send, send_story, service_event,
}
use open_mos.Wire.StorySend.{RoStorySend, StoryBody}
use open_mos.Service.StoryBodies.{process_story_body, collect_cues, body_infos}
use open_mos.Service.Messages.{is_blank}
use open_mos.Events.{story_received, identifier}
use open_mos.Service.Publishing.{publish-ok, stories-publish, items-publish, running_orders-publish}

-- An item of a story is held under a key.
abbrev pub HoldsItem : Text → Table Item → Text → Type 0
HoldsItem story t k = (i : Item) × (lookup k t ≡ some i) × (i.story_id ≡ story)

-- What storing items of a story makes of a table: each item is held for the story, a key that was held
-- for it still is, and no other key has changed.
pub record AreStored (story : Text) (infos : List ItemInfo) (before after : Table Item)
    : Type 0 where
  pub keyed : IsKeyed item_ident after
  pub held : All (λ (i : ItemInfo). HoldsItem story after (item_persistence_id story i.id)) infos
  pub kept : (k : Text) → HoldsItem story before k → HoldsItem story after k
  pub untouched :
      (k : Text)
      → All (λ (i : ItemInfo). item_persistence_id story i.id ≢ k) infos
      → lookup k after ≡ lookup k before

put-HoldsItem :
    (story k : Text) (x : Item) (t : Table Item)
    → x.story_id ≡ story
    → HoldsItem story t k
    → HoldsItem story (put x.id x t) k
put-HoldsItem story k x t o h = elim (Bool-cases (same x.id k)) [
  | inl q ↦ (x, lookup-put x.id k x t ∙ rw q refl, o)
  | inr q ↦ (h.0, lookup-put x.id k x t ∙ rw q h.1, h.2)
]

module _ {Rate : Type 0} (floats : Floats Rate) (now : Time) where
  pub store_items-AreStored :
      (story : Text) (n : ℕ) (infos : List ItemInfo) (s : MosService)
      → IsKeyed item_ident s.items
      → (t : Table Item) × (store_items floats now story n infos s
          ≡ (ok tt, record s { items = t }))
        × AreStored story infos s.items t
  unfolding store_items
  store_items-AreStored story n [] s k =
      (s.items, refl, record { keyed = k; held = tt; kept = λ j h. h; untouched = λ j a. refl })
  store_items-AreStored story n (info ∷ infos) s k =
      let (x, i, o, e) = store_item-put floats now story n info s k in
      let t = put x.id x s.items in
      let (u, f, r) =
        store_items-AreStored story (suc n) infos (record s { items = t })
          (IsKeyed-put item_ident x.id x s.items refl k) in
      (
        u,
        rw e f,
        record {
          keyed = r.keyed;
          held = (
            r.kept (item_persistence_id story info.id)
                (x, ap (λ j. lookup j t) (sym i) ∙ lookup-put_self x.id x s.items, o),
            r.held,
          );
          kept = λ j h. r.kept j (put-HoldsItem story j x s.items o h);
          untouched =
              λ j a. r.untouched j a.1 ∙ lookup-put_ne x.id j x s.items (λ q. a.0 (sym i ∙ q));
        },
      )

-- The story that a roStorySend leaves: a new one, or the one that was held, with the cues of the body.
abbrev pub received : Casing → Time → RoStorySend → Result Story → Story
received casing now m (err e) = record (sent_story now m) {
  cues = collect_cues casing m.story_body;
}
received casing now m (ok old) = record (merge_sent now m old) {
  cues = collect_cues casing m.story_body;
}

abbrev pub story_key : RoStorySend → Text
story_key m = story_persistence_id m.ro_id m.story_id

update_story-eq :
    (x old : Story) (s : MosService)
    → lookup x.id s.stories ≡ some old
    → update_story x s ≡ (ok tt, record s { stories = put x.id x s.stories })
unfolding Repository.update
update_story-eq x old s e = rw (e, Repository.update) refl

module _ (casing : Casing) {Rate : Type 0} (floats : Floats Rate) (now : Time) where
  process_story_body-AreStored :
      (x : Story) (body : StoryBody) (s : MosService)
      → IsKeyed item_ident s.items
      → (t : Table Item) × (process_story_body casing floats now x body s
          ≡ (ok (record x { cues = collect_cues casing body }), record s { items = t }))
        × AreStored x.id (body_infos body) s.items t
  unfolding process_story_body
  process_story_body-AreStored x body s k =
      let (t, e, r) = store_items-AreStored floats now x.id 1 (body_infos body) s k in
      (t, rw e refl, r)

  send_found-stored :
      (m : RoStorySend) (s : MosService) (o : Result Story)
      → IsKeyed story_ident s.stories
      → IsKeyed item_ident s.items
      → Stories.get (story_key m) s.stories ≡ o
      → (t : Table Item) × (send_found casing floats now m o s ≡ (
        ok tt,
        record s { stories = put (story_key m) (received casing now m o) s.stories; items = t },
      ))
        × AreStored (story_key m) (body_infos m.story_body) s.items t
  unfolding sent_story merge_sent
  send_found-stored m s (err e) ks ki h =
      let (t, q, r) = process_story_body-AreStored (sent_story now m) m.story_body s ki in
      let x = received casing now m (err e) in
      let made =
        create_story-eq floats now x (record s { items = t })
          (held_none (story_key m) s.stories e h) in
      (t, rw q (rw made refl), r)
  send_found-stored m s (ok old) ks ki h =
      let l = held_some (story_key m) s.stories old h in
      let same_key = ident_of_lookup story_ident (story_key m) old s.stories ks l in
      let (t, q, r) = process_story_body-AreStored (merge_sent now m old) m.story_body s ki in
      let x = received casing now m (ok old) in
      let made =
        update_story-eq x old (record s { items = t })
          (ap (λ j. lookup j s.stories) same_key ∙ l) in
      (
        t,
        rw q (
            rw made (
              ap
                (λ (j : Text).
                  let y : Result (Unit {0}) × MosService =
                    (ok tt, record s { stories = put j x s.stories; items = t }) in
                  y)
                same_key)),
        subst (λ j. AreStored j (body_infos m.story_body) s.items t) same_key r,
      )

-- What a roStorySend that is accepted makes of the state.
pub record IsReceived (casing : Casing) (now : Time) (m : RoStorySend) (s u : MosService)
    : Type 0 where
  pub story_held :
      lookup (story_key m) u.stories
      ≡ some (received casing now m (Stories.get (story_key m) s.stories))
  pub other_stories : (k : Text) → story_key m ≢ k → lookup k u.stories ≡ lookup k s.stories
  pub items_stored : AreStored (story_key m) (body_infos m.story_body) s.items u.items
  pub same_running_orders : u.running_orders ≡ s.running_orders

module _ (casing : Casing) {Rate : Type 0} (floats : Floats Rate) (now : Time) where
  pub process_ro_story_send_lem :
      (m : RoStorySend) (r : RunningOrder) (s : MosService)
      → is_blank m.ro_id ≡ false
      → is_blank m.story_id ≡ false
      → RunningOrders.get m.ro_id s.running_orders ≡ ok r
      → IsKeyed story_ident s.stories
      → IsKeyed item_ident s.items
      → ((process_ro_story_send casing floats now m s).0 ≡ ok tt)
        × IsReceived casing now m s (process_ro_story_send casing floats now m s).1
  unfolding process_ro_story_send send_story
  process_ro_story_send_lem m r s b c g ks ki =
      let o = Stories.get (story_key m) s.stories in
      let (t, e, a) = send_found-stored casing floats now m s o ks ki refl in
      let x = received casing now m o in
      let u : MosService = record s { stories = put (story_key m) x s.stories; items = t } in
      let event = service_event story_received (identifier m.story_id) in
      let run : process_ro_story_send casing floats now m s ≡ publish_event event u =
        rw (b, c, g) (rw e refl) in
      rw run (
        publish-ok event u,
        record {
          story_held =
              ap (lookup (story_key m)) (stories-publish event u)
              ∙ lookup-put_self (story_key m) x s.stories;
          other_stories = λ k d.
              ap (lookup k) (stories-publish event u) ∙ lookup-put_ne (story_key m) k x s.stories d;
          items_stored =
              subst (AreStored (story_key m) (body_infos m.story_body) s.items)
                (sym (items-publish event u)) a;
          same_running_orders = running_orders-publish event u;
        },
      )

  -- A roStorySend for a running order that is not held changes nothing, and its error asks for that
  -- running order.
  pub process_ro_story_send-unknown :
      (m : RoStorySend) (e : Error) (s : MosService)
      → is_blank m.ro_id ≡ false
      → is_blank m.story_id ≡ false
      → RunningOrders.get m.ro_id s.running_orders ≡ err e
      → process_ro_story_send casing floats now m s ≡ (err (unknown_running_order m.ro_id e), s)
  unfolding process_ro_story_send
  process_ro_story_send-unknown m e s b c g = rw (b, c, g) refl

-- ===== src/Service/OnAir/Reports.antt =====
-- src/internal/service/onair.go: what a story's report does to the story and to what is on air.
use open_mos.Prelude.{
  if◌then◌else◌, ◌∷◌, ◌++◌, ◌≡◌, refl, ap, ◌∙◌, false, Option, some, arith, ◌∷◌, subst, ℕ,
}
use open_mos.Text.Trim.{trim_space}
use open_mos.Text.{Text, text, same, is_empty}
use open_mos.Outcome.{ok}
use open_mos.Model.{Story, RunningOrder, Time}
use open_mos.Wire.{RoElementStat}
use open_mos.Table.{Table, lookup, put}
use open_mos.Table.Laws.{lookup-put}
use open_mos.Repository
use open_mos.Repository.RunningOrders
use open_mos.Repository.Stories
use open_mos.Events.{story_modified}
use open_mos.Service.{MosService, publish_event}
use open_mos.Service.Publishing.{running_orders-publish, stories-publish}
use open_mos.Text.Order.{same_refl}
use open_mos.Service.Identity.{resolve_story, story_persistence_id}
use open_mos.Service.OnAir.{
  mark_story, point_on_air, on_air_story, of_story, level_of, status_of, since_of, status_time,
  apply_story_status, process_element_status, report_event, status_play, status_stop,
}
use mathlib.Core.List.{[]}

resolve_held :
    (ro wire : Text) (t : Table Story) (x : Story)
    → is_empty wire ≡ false
    → lookup (story_persistence_id ro wire) t ≡ some x
    → resolve_story ro wire t ≡ ok x
unfolding resolve_story is_empty Repository.get
resolve_held ro [] t x n h = ground arith
resolve_held ro (c ∷ r) t x n h = rw (h, Repository.get) refl

update_held :
    (x y : Story) (t : Table Story)
    → lookup x.id t ≡ some y
    → Stories.update x t ≡ ok (put x.id x t)
unfolding Repository.update
update_held x y t h = rw (h, Repository.update) refl

update_held_order :
    (k : Text) (x y : RunningOrder) (t : Table RunningOrder)
    → x.id ≡ k
    → lookup k t ≡ some y
    → RunningOrders.update x t ≡ ok (put k x t)
unfolding Repository.update
update_held_order k x y t e h =
    subst (λ j. lookup j t ≡ some y → RunningOrders.update x t ≡ ok (put j x t)) e
      (λ l. rw (l, Repository.update) refl) h

get_held :
    {A : Type 0} (k : Text) (r : A) (t : Table A) → lookup k t ≡ some r → Repository.get k t ≡ ok r
unfolding Repository.get
get_held k r t h = rw (h, Repository.get) refl

on_air_story_held :
    (ro : Text) (r : RunningOrder) (y : Story) (s : MosService)
    → lookup ro s.running_orders ≡ some r
    → is_empty r.on_air_story_id ≡ false
    → lookup r.on_air_story_id s.stories ≡ some y
    → (on_air_story ro s).0 ≡ ok (some (y, r.on_air_since))
unfolding on_air_story Repository.get
on_air_story_held ro r y s h n l =
    rw (get_held ro r s.running_orders h, n, get_held r.on_air_story_id y s.stories l) refl

is_empty-middle : (a b : Text) (c : ℕ) → is_empty (a ++ c ∷ b) ≡ false
unfolding is_empty
is_empty-middle [] b c = refl
is_empty-middle (x ∷ a) b c = refl

is_empty-key : (ro wire : Text) → is_empty (story_persistence_id ro wire) ≡ false
unfolding story_persistence_id
is_empty-key ro wire = is_empty-middle _ _ _

module _ (to_upper : Text → Text) (parse_mos_time : Text → Option Time) where
  -- A report on a story that is held under its key, in a running order that is held.
  pub record IsReported (stat : RoElementStat) (x : Story) (r : RunningOrder) (s : MosService)
      : Type 0 where
    pub level : level_of to_upper parse_mos_time stat ≡ of_story
    pub named : is_empty stat.story_id ≡ false
    pub key : x.id ≡ story_persistence_id stat.ro_id stat.story_id
    pub stored : lookup x.id s.stories ≡ some x
    pub ordered : lookup r.id s.running_orders ≡ some r
    pub order_key : r.id ≡ stat.ro_id

  abbrev marked : Time → RoElementStat → Story → Story
  marked now stat x = mark_story now (status_of to_upper parse_mos_time stat) stat.time x

  abbrev pub pointed : Time → RoElementStat → Story → RunningOrder → RunningOrder
  pointed now stat x r =
      point_on_air now (since_of to_upper parse_mos_time now stat.time)
        (status_of to_upper parse_mos_time stat) x.id r

  pub pointed-id :
      (now : Time) (stat : RoElementStat) (x : Story) (r : RunningOrder)
      → (pointed now stat x r).id ≡ r.id
  unfolding point_on_air
  pointed-id now stat x r = ground arith

  reported_run :
      (now : Time) (stat : RoElementStat) (x : Story) (r : RunningOrder) (s : MosService)
      → IsReported stat x r s
      → process_element_status to_upper parse_mos_time now stat s
        ≡ publish_event (report_event story_modified x.id) (record s {
          stories = put x.id (marked now stat x) s.stories;
          running_orders = put r.id (pointed now stat x r) s.running_orders;
        })
  unfolding process_element_status apply_story_status
  reported_run now stat x r s h =
      rw
        (
          h.level,
          resolve_held stat.ro_id stat.story_id s.stories x h.named (rw (← h.key) h.stored),
          update_held (marked now stat x) x s.stories h.stored,
          get_held stat.ro_id r s.running_orders (rw (← h.order_key) h.ordered),
          update_held_order r.id (pointed now stat x r) r s.running_orders (pointed-id now stat x r)
              h.ordered,
        )
        refl

  -- The running order and the stories after a report.
  reported_order :
      (now : Time) (stat : RoElementStat) (x : Story) (r : RunningOrder) (s : MosService) (k : Text)
      → IsReported stat x r s
      → lookup k (process_element_status to_upper parse_mos_time now stat s).1.running_orders
        ≡ (if same r.id k then some (pointed now stat x r) else lookup k s.running_orders)
  reported_order now stat x r s k h =
      rw (reported_run now stat x r s h, running_orders-publish)
        (lookup-put r.id k (pointed now stat x r) s.running_orders)

  pub reported_story :
      (now : Time) (stat : RoElementStat) (x : Story) (r : RunningOrder) (s : MosService) (k : Text)
      → IsReported stat x r s
      → lookup k (process_element_status to_upper parse_mos_time now stat s).1.stories
        ≡ (if same x.id k then some (marked now stat x) else lookup k s.stories)
  reported_story now stat x r s k h =
      rw (reported_run now stat x r s h, stories-publish)
        (lookup-put x.id k (marked now stat x) s.stories)

  played :
      (now : Time) (stat : RoElementStat) (x : Story) (r : RunningOrder) (s : MosService)
      → IsReported stat x r s
      → status_of to_upper parse_mos_time stat ≡ status_play
      → lookup stat.ro_id
          (process_element_status to_upper parse_mos_time now stat s).1.running_orders
        ≡ some (record r {
          on_air_story_id = x.id;
          on_air_since = some (since_of to_upper parse_mos_time now stat.time);
          updated_at = now;
        })
  unfolding point_on_air same
  played now stat x r s h q =
      rw (reported_order now stat x r s stat.ro_id h, h.order_key, same_refl, q) refl

  -- A PLAY of a story puts it on air: OnAirStory then returns that story, with the status PLAY, since the
  -- time that the report carries and that can be read. The story is held under its key, in a running
  -- order that is held, and but for its status, its metadata and the time of its last change it is as
  -- it was.
  pub on_air_story-play :
      (now since : Time) (stat : RoElementStat) (x : Story) (r : RunningOrder) (s : MosService)
      → IsReported stat x r s
      → to_upper (trim_space stat.status) ≡ text "PLAY"
      → is_empty (trim_space stat.time) ≡ false
      → parse_mos_time (trim_space stat.time) ≡ some since
      → (y : Story) × ((on_air_story stat.ro_id
            (process_element_status to_upper parse_mos_time now stat s).1).0
          ≡ ok (some (y, some since)))
        × (y ≡ record x { status = text "PLAY"; updated_at = now; metadata = y.metadata })
  unfolding on_air_story mark_story since_of status_time
  on_air_story-play now since stat x r s h q e t =
      let y = mark_story now status_play stat.time x in
      let carried : since_of to_upper parse_mos_time now stat.time ≡ since =
        rw (e, t, since_of, status_time) refl in
      (
        y,
        on_air_story_held stat.ro_id _ _ _ (played now stat x r s h q)
              (rw h.key (is_empty-key stat.ro_id stat.story_id))
              (rw (reported_story now stat x r s x.id h, same_refl, q) refl)
            ∙ ap (λ z. ok (some (y, some z))) carried,
        refl,
      )

  -- A STOP of a story that is not the one on air leaves the running order as it was but for the time of its
  -- last change.
  pub process_element_status-stop_other :
      (now : Time) (stat : RoElementStat) (x : Story) (r : RunningOrder) (s : MosService)
      → IsReported stat x r s
      → status_of to_upper parse_mos_time stat ≡ status_stop
      → same r.on_air_story_id x.id ≡ false
      → lookup stat.ro_id
          (process_element_status to_upper parse_mos_time now stat s).1.running_orders
        ≡ some (record r { updated_at = now })
  unfolding point_on_air same
  process_element_status-stop_other now stat x r s h q n =
      rw (reported_order now stat x r s stat.ro_id h, h.order_key, same_refl, q, n) refl

  pub reported_at :
      (now : Time) (stat : RoElementStat) (x : Story) (r : RunningOrder) (s : MosService)
      → IsReported stat x r s
      → lookup r.id (process_element_status to_upper parse_mos_time now stat s).1.running_orders
        ≡ some (pointed now stat x r)
  reported_at now stat x r s h = rw (reported_order now stat x r s r.id h, same_refl) refl

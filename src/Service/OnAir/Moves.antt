-- ===== src/Service/OnAir/Moves.antt =====
-- src/internal/service/onair.go: the two reports of one move of the timing bar.
use open_mos.Prelude.{◌≡◌, refl, false, Option, none, some, arith, subst, ◌∙◌, sym, ap}
use open_mos.Text.{Text, same}
use open_mos.Model.{Story, RunningOrder, Time}
use open_mos.Wire.{RoElementStat}
use open_mos.Table.{Table, lookup}
use open_mos.Service.{MosService}
use open_mos.Text.Order.{same_iff}
use open_mos.Service.OnAir.{
  point_on_air, status_of, since_of, process_element_status, status_play, status_stop,
}
use open_mos.Service.OnAir.Reports.{IsReported, pointed, pointed-id, reported_story, reported_at}

-- The pointer of a running order: the story on air, and since when.
unfoldable pub on_air : Text → Table RunningOrder → Option (Text × Option Time)
on_air ro t = elim (lookup ro t) [ none ↦ none | some r ↦ some (r.on_air_story_id, r.on_air_since) ]

on_air_held :
    (k : Text) (r : RunningOrder) (t : Table RunningOrder)
    → lookup k t ≡ some r
    → on_air k t ≡ some (r.on_air_story_id, r.on_air_since)
unfolding on_air
on_air_held k r t h = rw (h, on_air) refl

module _ (to_upper : Text → Text) (parse_mos_time : Text → Option Time) where
  -- A report on another story that is still held when one story's report has been recorded.
  IsReported-next :
      (now : Time) (first second : RoElementStat) (x y : Story) (r : RunningOrder) (s : MosService)
      → IsReported to_upper parse_mos_time first x r s
      → IsReported to_upper parse_mos_time second y r s
      → same x.id y.id ≡ false
      → IsReported to_upper parse_mos_time second y
          (pointed to_upper parse_mos_time now first x r)
          (process_element_status to_upper parse_mos_time now first s).1
  IsReported-next now first second x y r s h k n = record {
    level = k.level;
    named = k.named;
    key = k.key;
    stored = rw (reported_story to_upper parse_mos_time now first x r s y.id h, n) k.stored;
    ordered =
        subst
          (λ i.
            lookup i (process_element_status to_upper parse_mos_time now first s).1.running_orders
            ≡ some (pointed to_upper parse_mos_time now first x r))
          (sym (pointed-id to_upper parse_mos_time now first x r))
          (reported_at to_upper parse_mos_time now first x r s h);
    order_key = pointed-id to_upper parse_mos_time now first x r ∙ k.order_key;
  }

  pointed_play :
      (now : Time) (stat : RoElementStat) (x : Story) (r : RunningOrder)
      → status_of to_upper parse_mos_time stat ≡ status_play
      → pointed to_upper parse_mos_time now stat x r ≡ record r {
        on_air_story_id = x.id;
        on_air_since = some (since_of to_upper parse_mos_time now stat.time);
        updated_at = now;
      }
  unfolding point_on_air same
  pointed_play now stat x r q = rw q refl

  pointed_stop_other :
      (now : Time) (stat : RoElementStat) (x : Story) (r : RunningOrder)
      → status_of to_upper parse_mos_time stat ≡ status_stop
      → same r.on_air_story_id x.id ≡ false
      → pointed to_upper parse_mos_time now stat x r ≡ record r { updated_at = now }
  unfolding point_on_air same
  pointed_stop_other now stat x r q n = rw (q, n) refl

  -- The pointer when a PLAY of a story is recorded and then a STOP of another.
  on_air-play_stop :
      (now later : Time) (play stop : RoElementStat) (entered left : Story) (r : RunningOrder)
      (s : MosService)
      → IsReported to_upper parse_mos_time play entered r s
      → IsReported to_upper parse_mos_time stop left r s
      → same entered.id left.id ≡ false
      → status_of to_upper parse_mos_time play ≡ status_play
      → status_of to_upper parse_mos_time stop ≡ status_stop
      → on_air r.id
          (process_element_status to_upper parse_mos_time later stop
            (process_element_status to_upper parse_mos_time now play s).1).1.running_orders
        ≡ some (entered.id, some (since_of to_upper parse_mos_time now play.time))
  on_air-play_stop now later play stop entered left r s h k n p q =
      let after = (process_element_status to_upper parse_mos_time now play s).1 in
      let on = record r {
        on_air_story_id = entered.id;
        on_air_since = some (since_of to_upper parse_mos_time now play.time);
        updated_at = now;
      } in
      let next =
        subst (λ o. IsReported to_upper parse_mos_time stop left o after)
          (pointed_play now play entered r p)
          (IsReported-next now play stop entered left r s h k n) in
      on_air_held r.id (record on { updated_at = later }) _
        (rw (← pointed_stop_other later stop left on q n)
          (reported_at to_upper parse_mos_time later stop left on after next))

  -- The pointer when a STOP of another story is recorded and then a PLAY of a story.
  on_air-stop_play :
      (now later : Time) (play stop : RoElementStat) (entered left : Story) (r : RunningOrder)
      (s : MosService)
      → IsReported to_upper parse_mos_time play entered r s
      → IsReported to_upper parse_mos_time stop left r s
      → same left.id entered.id ≡ false
      → status_of to_upper parse_mos_time play ≡ status_play
      → on_air r.id
          (process_element_status to_upper parse_mos_time later play
            (process_element_status to_upper parse_mos_time now stop s).1).1.running_orders
        ≡ some (entered.id, some (since_of to_upper parse_mos_time later play.time))
  on_air-stop_play now later play stop entered left r s h k n p =
      let after = (process_element_status to_upper parse_mos_time now stop s).1 in
      let off = pointed to_upper parse_mos_time now stop left r in
      let next = IsReported-next now stop play left entered r s k h n in
      on_air_held r.id _ _ (
        subst
          (λ i.
            lookup i
              (process_element_status to_upper parse_mos_time later play after).1.running_orders
            ≡ some (pointed to_upper parse_mos_time later play entered off))
          (pointed-id to_upper parse_mos_time now stop left r)
          (reported_at to_upper parse_mos_time later play entered off after next)
        ∙ ap some (pointed_play later play entered off p))

  -- The reports of one move of the timing bar may come in either order: a STOP of the story that is left and
  -- a PLAY of another story leave the other story on air, since the time that its PLAY carries, whichever is
  -- recorded first.
  pub on_air-either_order :
      (now later : Time) (play stop : RoElementStat) (entered left : Story) (r : RunningOrder)
      (s : MosService)
      → IsReported to_upper parse_mos_time play entered r s
      → IsReported to_upper parse_mos_time stop left r s
      → same entered.id left.id ≡ false
      → status_of to_upper parse_mos_time play ≡ status_play
      → status_of to_upper parse_mos_time stop ≡ status_stop
      → (on_air r.id
            (process_element_status to_upper parse_mos_time later stop
              (process_element_status to_upper parse_mos_time now play s).1).1.running_orders
          ≡ some (entered.id, some (since_of to_upper parse_mos_time now play.time)))
        × (on_air r.id
              (process_element_status to_upper parse_mos_time later play
                (process_element_status to_upper parse_mos_time now stop s).1).1.running_orders
            ≡ some (entered.id, some (since_of to_upper parse_mos_time later play.time)))
  on_air-either_order now later play stop entered left r s h k n p q = (
    on_air-play_stop now later play stop entered left r s h k n p q,
    on_air-stop_play now later play stop entered left r s h k
        (ground (arith, n, same_iff entered.id left.id, same_iff left.id entered.id)) p,
  )

-- ===== src/Dispatch/Answers/Replaced.antt =====
-- A running order that a peer replaces and then asks for: ReplaceRunningOrder of src/internal/service/mos.go and
-- handleReq of src/internal/server/dispatch_ro.go.
use open_mos.Prelude.{
  ℕ, String, suc, ◌≡◌, refl, ap, ◌∙◌, true, false, List, [], ◌∷◌, All, map, some, arith, ap₂, Bool,
}
use open_mos.Text.{Text, is_empty}
use open_mos.Text.Trim.{trim_space}
use open_mos.Outcome.{Result, ok, err}
use open_mos.Model.{Story, RunningOrder, Time}
use open_mos.Table.{lookup}
use open_mos.Table.Laws.{IsKeyed}
use open_mos.Repository.RunningOrders
use open_mos.Repository.Stories
use open_mos.Service.{MosService}
use open_mos.Service.Timing.{Floats}
use open_mos.Service.Messages.{
  validate_running_order, validate_stories, validate_items, is_blank, require,
}
use open_mos.Service.Workflow.{replace_running_order, get_running_order_with_stories, paired}
use open_mos.Service.Workflow.Stored.{stories_of, HaveDistinctIds, get-some}
use open_mos.Service.Workflow.Removal.{StoriesKeyed, ItemsKeyed}
use open_mos.Service.Workflow.Listed.{AreOwned}
use open_mos.Service.Workflow.Replaced.{replace_running_order-listed, record_after}
use open_mos.Dispatch.{ro_list}
use open_mos.Dispatch.Answers.{story_infos_for, req_answer, listed_order, listed_answer, wire_id}
use open_mos.Wire.{StoryInfo, ItemInfo, RoReplace, RoList}

-- What identifies and names a story.
abbrev pub story_head : StoryInfo → Text × Text × Text
story_head x = (x.id, x.slug, x.number)

require-ok :
    (message : String) (missing : Bool) (rest : Result (Unit {0}))
    → require message missing rest ≡ ok tt
    → (missing ≡ false) × (rest ≡ ok tt)
require-ok message true rest h = ground (arith, h)
require-ok message false rest h = (refl, h)

rest_valid :
    (items : List ItemInfo) (rest : Result (Unit {0}))
    → validate_items items rest ≡ ok tt
    → rest ≡ ok tt
unfolding validate_items
rest_valid [] rest h = h
rest_valid (i ∷ is') rest h =
    let after_id = (require-ok "itemID is required" (is_blank i.id) _ h).1 in
    let after_object = (require-ok "objID is required" (is_blank i.object_id) _ after_id).1 in
    rest_valid is' rest (require-ok "mosID is required" (is_blank i.mos_id) _ after_object).1

-- A valid message names every story.
ids_given :
    (xs : List StoryInfo)
    → validate_stories xs ≡ ok tt
    → All (λ (x : StoryInfo). is_blank x.id ≡ false) xs
unfolding validate_stories
ids_given [] h = tt
ids_given (x ∷ xs) h =
    let r = require-ok _ _ _ h in (r.0, ids_given xs (rest_valid x.items (validate_stories xs) r.1))

blank_nil : is_blank [] ≡ true
unfolding is_empty trim_space
blank_nil = refl

wire_id_given : (w key : Text) → is_blank w ≡ false → wire_id w key ≡ w
unfolding is_empty
wire_id_given [] key h = absurd (ground (arith, h, blank_nil))
wire_id_given (c ∷ w) key h = refl

heads :
    (to_upper : Text → Text) (now : Time) (ro : Text) (n : ℕ) (s : MosService) (xs : List StoryInfo)
    → All (λ (x : StoryInfo). is_blank x.id ≡ false) xs
    → map story_head (story_infos_for to_upper s (stories_of now ro n xs)) ≡ map story_head xs
unfolding story_infos_for stories_of
heads to_upper now ro n s [] h = refl
heads to_upper now ro n s (x ∷ xs) h =
    ap₂ (λ (w : Text) (ys : List (Text × Text × Text)). (w, x.slug, x.number) ∷ ys)
      (wire_id_given x.id _ h.0) (heads to_upper now ro (suc n) s xs h.1)

slug_after :
    (now : Time) (m : RoReplace) (r : Result RunningOrder)
    → ((record_after now m r).slug ≡ m.slug) × ((record_after now m r).channel ≡ m.channel)
slug_after now m (err e) = (refl, refl)
slug_after now m (ok r) = (refl, refl)

parts_valid :
    (ro slug : Text) (xs : List StoryInfo)
    → validate_running_order ro slug xs ≡ ok tt
    → (is_blank ro ≡ false) × (validate_stories xs ≡ ok tt)
unfolding validate_running_order
parts_valid ro slug xs h = let r = require-ok _ _ _ h in (r.0, (require-ok _ _ _ r.1).1)

found_with :
    (ro : Text) (s : MosService) (r : RunningOrder) (xs : List Story)
    → lookup ro s.running_orders ≡ some r
    → Stories.list_by_running_order ro s.stories ≡ xs
    → get_running_order_with_stories ro s ≡ ok (r, xs)
unfolding get_running_order_with_stories
found_with ro s r xs l e =
    ap (paired ro s) (get-some ro r s.running_orders l) ∙ ap (λ (ys : List Story). ok (r, ys)) e

answer_of :
    (to_upper : Text → Text) (ro : Text) (s : MosService) (r : RunningOrder) (xs : List Story)
    → is_blank ro ≡ false
    → lookup ro s.running_orders ≡ some r
    → Stories.list_by_running_order ro s.stories ≡ xs
    → req_answer to_upper ro s ≡ ro_list (listed_order to_upper s r xs)
unfolding req_answer
answer_of to_upper ro s r xs b l e =
    rw b (ap (listed_answer to_upper s ro) (found_with ro s r xs l e))

-- A peer that replaces a running order and then asks for it is told of the same stories: ReplaceRunningOrder
-- of a valid message without repeated storyIDs, and then handleReq, answer with a roList of the slug and
-- the channel of the message, and of its stories in their order, each with its storyID, its slug and its
-- number.
pub req_answer-replace_running_order :
    {Rate : Type 0} (floats : Floats Rate) (to_upper : Text → Text) (now : Time) (m : RoReplace)
    (s : MosService)
    → validate_running_order m.id m.slug m.stories ≡ ok tt
    → IsKeyed (λ (r : RunningOrder). r.id) s.running_orders
    → StoriesKeyed s.stories
    → ItemsKeyed s.items
    → AreOwned m.id s.stories
    → HaveDistinctIds m.stories
    → (l : RoList) × (req_answer to_upper m.id (replace_running_order floats now m s).1 ≡ ro_list l)
      × (l.slug ≡ m.slug)
      × (l.channel ≡ m.channel)
      × (map story_head l.stories ≡ map story_head m.stories)
req_answer-replace_running_order floats to_upper now m s v kr ks ki o d =
    let t = (replace_running_order floats now m s).1 in
    let r = record_after now m (RunningOrders.get m.id s.running_orders) in
    let xs = stories_of now m.id 1 m.stories in
    let (done, listed, held, others) = replace_running_order-listed floats now m s v kr ks ki o d in
    let p = parts_valid m.id m.slug m.stories v in
    let names = slug_after now m (RunningOrders.get m.id s.running_orders) in
    (
      listed_order to_upper t r xs,
      answer_of to_upper m.id t r xs p.0 held listed,
      names.0,
      names.1,
      heads to_upper now m.id 1 t m.stories (ids_given m.stories p.1),
    )

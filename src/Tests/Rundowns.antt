-- ===== src/Tests/Rundowns.antt =====
-- Running orders that are replaced, asked for and deleted.
use open_mos.Prelude.{
  ℕ, ◌/◌, ◌≡◌, refl, true, false, Bool, [], ◌∷◌, Option, none, some, map, arith, ◌==◌, if_holds,
  sym, ap,
}
use open_mos.Text.{Text, text, same, is_empty}
use open_mos.Text.Number.{pos, negsuc, unsigned}
use open_mos.Outcome.{ok, err}
use open_mos.Model.{Story, Item, zero_story, zero_item, zero_running_order}
use open_mos.Table.{lookup}
use open_mos.Repository.{not_found_error}
use open_mos.Repository.Stories
use open_mos.Repository.RunningOrders
use open_mos.Service.{MosService}
use open_mos.Service.Timing.{Floats, parse_samples}
use open_mos.Service.Messages.{
  duration_seconds, validate_running_order, validate_stories, validate_items,
}
use open_mos.Service.Identity.{story_persistence_id}
use open_mos.Service.Workflow.Listed.{AreOwned}
use open_mos.Text.Trim.{trim_space}
use open_mos.Service.Workflow.{delete_running_order, replace_running_order}
use open_mos.Service.Workflow.Deleted.{IsEmptied, delete_running_order-IsEmptied}
use open_mos.Dispatch.{ro_list}
use open_mos.Dispatch.Answers.{req_answer}
use open_mos.Dispatch.Answers.Replaced.{story_head, req_answer-replace_running_order}
use open_mos.Wire.{RoReplace, RoList, zero_story_info, zero_item_info}
use open_mos.Text.Trim.{trim_space}

-- Rates that are whole numbers.
abbrev whole : Floats ℕ
whole = record {
  parse_float = unsigned 10;
  is_at_most_zero = λ r. r == 0;
  round = pos;
  seconds = λ n r. elim n [ pos k ↦ pos (k / r) | negsuc k ↦ pos 0 ];
}

abbrev ro : Text
ro = text "R"

abbrev story_a : Story
story_a = record zero_story { id = text "R/A"; raw_id = text "A"; running_order_id = ro; order = 1 }

abbrev item_a : Item
item_a = record zero_item { id = text "R/A/1"; raw_id = text "1"; story_id = text "R/A"; order = 1 }

abbrev show : MosService
show = record {
  running_orders = (ro, record zero_running_order { id = ro; slug = text "Old"; version = 1 }) ∷ [];
  stories = (text "R/A", story_a) ∷ [];
  items = (text "R/A/1", item_a) ∷ [];
  objects = [];
  event_bus = none;
}

-- "00:58:25" is a duration of the clock.
clock_duration : duration_seconds (text "00:58:25") ≡ pos 3505
unfolding duration_seconds
clock_duration = refl

hex_duration : parse_samples (text "0xFF55") ≡ some (pos 65365)
unfolding parse_samples is_empty same
hex_duration = refl

delete_running_order-IsEmptied_example :
    ((delete_running_order ro show).0 ≡ ok tt)
    × (RunningOrders.get ro (delete_running_order ro show).1.running_orders ≡ err not_found_error)
    × ((other : Text)
        → same other ro ≡ false
        → lookup other (delete_running_order ro show).1.running_orders
          ≡ lookup other show.running_orders)
    × IsEmptied ro show
        (delete_running_order ro show).1.stories
        (delete_running_order ro show).1.items
unfolding lookup is_empty trim_space
delete_running_order-IsEmptied_example =
    delete_running_order-IsEmptied ro show refl (refl, refl, tt) (refl, refl, tt)

abbrev cut : RoReplace
cut = record {
  id = ro;
  slug = text "New";
  channel = [];
  ed_start = [];
  ed_dur = text "00:01:00";
  trigger = [];
  macro_in = [];
  macro_out = [];
  mos_external_metadata = [];
  stories =
      record zero_story_info {
        id = text "B";
        slug = text "Headlines";
        items =
            record zero_item_info {
              id = text "1";
              object_id = text "O";
              mos_id = text "M";
              duration = text "150";
              obj_tb = text "50";
            }
            ∷ [];
      }
      ∷ record zero_story_info { id = text "A"; number = text "2" }
      ∷ [];
}

cut-valid : validate_running_order cut.id cut.slug cut.stories ≡ ok tt
unfolding validate_running_order validate_stories validate_items is_empty trim_space
cut-valid = refl

abbrev in_show : Option Story → Bool
in_show none = true
in_show (some x) = Stories.is_in ro x

show-AreOwned : AreOwned ro show.stories
unfolding lookup same
show-AreOwned x w =
    if_holds (λ (o : Option Story). o ≡ some x → Stories.is_in ro x ≡ true)
      (same (text "R/A") (story_persistence_id ro w)) _ _ (λ _ e. sym (ap in_show e))
      (λ _ e. sym (ap in_show e))

req_answer-replace_running_order_example :
    (l : RoList) × (req_answer (λ t. t) ro (replace_running_order whole 7 cut show).1 ≡ ro_list l)
    × (l.slug ≡ text "New")
    × (l.channel ≡ [])
    × (map story_head l.stories ≡ map story_head cut.stories)
unfolding lookup
req_answer-replace_running_order_example =
    req_answer-replace_running_order whole (λ t. t) 7 cut show cut-valid (refl, refl, tt)
      (refl, refl, tt) (refl, refl, tt) show-AreOwned ((ground arith, tt), (tt, tt))

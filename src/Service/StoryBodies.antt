-- ===== src/Service/StoryBodies.antt =====
-- collectCues and processStoryBody of src/internal/service/story.go: what the body of a story carries.
use open_mos.Prelude.{map, ℕ, suc, List, [], ◌∷◌, ◌++◌, Option, none, some, if◌then◌else◌}
use open_mos.Text.{Text, is_empty}
use open_mos.Text.Number.{ℤ, pos}
use open_mos.Text.Format.{format_int}
use open_mos.Outcome.{Result, ok, err}
use open_mos.Exec.{Exec, pure, annotate, ◌>>◌}
use open_mos.Model.{Time, Story, StoryCue}
use open_mos.Wire.{ItemInfo, zero_item_info}
use open_mos.Cues.{Casing, body_cues}
use open_mos.Wire.StorySend.{
  StoryParagraph, StoryItemFields, StoryItem, StoryBody, BodyCue, item_fields,
}
use open_mos.Service.{MosService}
use open_mos.Service.Timing.{Floats}
use open_mos.Service.Workflow.{store_items}

-- The loop of collectCues, from a position.
unfoldable pub cues_from : ℕ → List BodyCue → List StoryCue
cues_from i [] = []
cues_from i (c ∷ cs) =
    record {
      kind = c.kind;
      raw = c.raw;
      verb = c.verb;
      target = c.target;
      fields = c.fields;
      params = c.params;
      order = i;
      paragraph = c.paragraph;
    }
    ∷ cues_from (suc i) cs

-- collectCues
unfoldable pub collect_cues : Casing → StoryBody → List StoryCue
unfolding cues_from body_cues
collect_cues casing body = cues_from 0 (
    body_cues casing.to_upper casing.equal_fold
      (map (λ (p : StoryParagraph). p.content) body.paragraphs))

-- if f.ItemEdDur > 0 { info.Duration = strconv.Itoa(f.ItemEdDur) }
abbrev printed_duration : ℤ → Text
printed_duration (pos (suc n)) = format_int (suc n)
printed_duration _ = []

abbrev pub info_of_fields : StoryItemFields → ItemInfo
info_of_fields f = record zero_item_info {
  id = f.item_id;
  slug = f.item_slug;
  abstract = f.mos_abstract;
  object_id = f.obj_id;
  mos_id = f.mos_id;
  channel = f.item_channel;
  mos_external_metadata = f.external_meta;
  duration = printed_duration f.item_ed_dur;
  obj_dur = f.obj_dur;
  obj_tb = f.obj_tb;
  obj_paths = f.obj_paths;
}

abbrev append_fields : Option StoryItemFields → List ItemInfo → List ItemInfo
append_fields none infos = infos
append_fields (some f) infos = info_of_fields f ∷ infos

-- appendItem, over a list
unfoldable pub infos_of : List StoryItem → List ItemInfo
unfolding item_fields format_int
infos_of [] = []
infos_of (i ∷ is') = append_fields (item_fields i) (infos_of is')

unfoldable pub paragraph_infos : List StoryParagraph → List ItemInfo
unfolding infos_of
paragraph_infos [] = []
paragraph_infos (p ∷ ps) = infos_of p.items ++ paragraph_infos ps

-- The loop over the elements in the order of the source.
unfoldable pub ordered_infos : List (Option ItemInfo) → List ItemInfo
ordered_infos [] = []
ordered_infos (none ∷ es) = ordered_infos es
ordered_infos (some i ∷ es) =
    record i { slug = if is_empty i.slug then i.abstract else i.slug } ∷ ordered_infos es

abbrev pub infos_or_legacy : StoryBody → Result (List (Option ItemInfo)) → List ItemInfo
infos_or_legacy body (ok elements) = ordered_infos elements
infos_or_legacy body (err e) = infos_of body.items ++ paragraph_infos body.paragraphs

-- The items that a body carries.
unfoldable pub body_infos : StoryBody → List ItemInfo
unfolding ordered_infos infos_of paragraph_infos
body_infos body = infos_or_legacy body body.ordered

module _ (casing : Casing) {Rate : Type 0} (floats : Floats Rate) where
  -- processStoryBody; the story comes back with its cues
  unfoldable pub process_story_body : Time → Story → StoryBody → Exec MosService Story
  unfolding collect_cues body_infos store_items
  process_story_body now x body =
      annotate "failed to store items for story" (store_items floats now x.id 1 (body_infos body))
      >> pure (record x { cues = collect_cues casing body })

-- ===== src/Scope.antt =====
-- src/internal/xml/scope.go: how far a block of external metadata may go. `to_upper` is strings.ToUpper.
pub mod Widening
use open_mos.Prelude.{Bool, true, false, List, keep, if◌then◌else◌}
use open_mos.Text.{Text, text, same}
use open_mos.Text.Trim.{trim_space}
use open_mos.Model.{ExternalMetadata}

pub data MetadataLevel : Type 0 where
  level_running_order level_story level_item : MetadataLevel

abbrev pub scope_object : Text
scope_object = text "OBJECT"

abbrev pub scope_story : Text
scope_story = text "STORY"

abbrev pub scope_playlist : Text
scope_playlist = text "PLAYLIST"

unfoldable pub is_story_or_item : MetadataLevel → Bool
is_story_or_item level_running_order = false
is_story_or_item level_story = true
is_story_or_item level_item = true

module _ (to_upper : Text → Text) where
  abbrev pub scope_of : Text → Text
  scope_of scope = to_upper (trim_space scope)

  -- ScopePermitsLevel
  unfoldable pub scope_permits_level : Text → MetadataLevel → Bool
  unfolding is_story_or_item
  scope_permits_level scope level =
      if same (scope_of scope) scope_object
      then false
      else (if same (scope_of scope) scope_story
          then is_story_or_item level
          else (if same (scope_of scope) scope_playlist then true else true))

  -- FilterMetadataForLevel; the nil slice is the empty list
  unfoldable pub filter_metadata_for_level :
      List ExternalMetadata → MetadataLevel → List ExternalMetadata
  unfolding scope_permits_level
  filter_metadata_for_level blocks level = keep (λ b. scope_permits_level b.scope level) blocks

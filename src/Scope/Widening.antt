-- ===== src/Scope/Widening.antt =====
-- src/internal/xml/scope.go: what may go into a message may go into its narrower parts.
use open_mos.Prelude.{◌≡◌, refl, ap, true, List, [], ◌∷◌, arith, Bool-cases, inl, inr}
use open_mos.Text.{Text}
use open_mos.Model.{ExternalMetadata}
use open_mos.Scope.{
  MetadataLevel, level_running_order, level_story, level_item, scope_permits_level,
  filter_metadata_for_level, is_story_or_item,
}

module _ (to_upper : Text → Text) where
  permits_narrower :
      (scope : Text) (level : MetadataLevel)
      → scope_permits_level to_upper scope level_running_order ≡ true
      → scope_permits_level to_upper scope level ≡ true
  unfolding scope_permits_level is_story_or_item
  permits_narrower scope level_running_order h = h
  permits_narrower scope level_story h = ground arith
  permits_narrower scope level_item h = ground arith

  -- The blocks that a running order may carry pass every filter of a part of it: filtering them for a
  -- story or an item drops none.
  pub filter_metadata_for_level_narrower :
      (blocks : List ExternalMetadata) (level : MetadataLevel)
      → filter_metadata_for_level to_upper
          (filter_metadata_for_level to_upper blocks level_running_order)
          level
        ≡ filter_metadata_for_level to_upper blocks level_running_order
  unfolding filter_metadata_for_level
  filter_metadata_for_level_narrower [] level = refl
  filter_metadata_for_level_narrower (b ∷ bs) level =
      let ih = filter_metadata_for_level_narrower bs level in
      elim (Bool-cases (scope_permits_level to_upper b.scope level_running_order)) [
        | inl q ↦ rw (q, permits_narrower b.scope level q) (ap (◌∷◌ b) ih)
        | inr q ↦ rw q ih
      ]

  -- A block may go into a story exactly where it may go into an item.
  pub scope_permits_level_story :
      (scope : Text)
      → scope_permits_level to_upper scope level_story
        ≡ scope_permits_level to_upper scope level_item
  unfolding scope_permits_level is_story_or_item
  scope_permits_level_story scope = refl

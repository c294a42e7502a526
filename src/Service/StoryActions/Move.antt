-- ===== src/Service/StoryActions/Move.antt =====
-- MOVE of stories: what is listed afterwards, and what stays as it was.
use open_mos.Prelude.{◌≡◌, ◌∙◌, refl, List, [], Option, false}
use open_mos.Text.{Text}
use open_mos.Outcome.{ok}
use open_mos.Model.{Story, Time}
use open_mos.Wire.{ElementTarget}
use open_mos.Table.Rewrite.{put_all, has_ident}
use open_mos.Service.Publishing.{publish-ok, stories-publish, items-publish, running_orders-publish}
use open_mos.Repository.Stories
use open_mos.Service.{MosService, publish_ro_update}
use open_mos.Service.Identity.{resolve_story_keys}
use open_mos.Service.Records.{renumber}
use open_mos.Service.StoryActions.{key_of_target, moved_order, move_stories}
use open_mos.Service.StoryActions.Moving.{
  story_ident, moved_order-In, moved_order-distinct, In-moved_order,
}
use open_mos.Service.StoryActions.Placed.{
  ArePlaced, moved_order-ArePlaced, numbered, renumber-numbered,
}
use open_mos.Service.StoryActions.Numbering.{
  StoriesKeyed, for_each-update, rearranged-held, listing_renumbered, listing-distinct,
  lookup_unlisted,
}
use open_mos.Table.{lookup}

module _ (now : Time) (ro : Text) (target : Option ElementTarget) (wire : List Text)
    (s : MosService) where
  abbrev listed : List Story
  listed = Stories.list_by_running_order ro s.stories

  move_stories_run :
      (key : Text) (keys : List Text)
      → StoriesKeyed s
      → key_of_target ro target s ≡ (ok key, s)
      → resolve_story_keys ro wire s.stories ≡ (keys, [])
      → move_stories now ro target wire s
        ≡ publish_ro_update ro (record s {
          stories = put_all story_ident (renumber now 1 (moved_order keys key listed)) s.stories;
        })
  unfolding move_stories
  move_stories_run key keys k t r =
      rw (t, r)
        (rw
          (for_each-update "failed to update story order"
            (renumber now 1 (moved_order keys key listed)) s
            (rearranged-held now ro (moved_order keys key listed) s.stories k
              (moved_order-In keys key listed)))
          refl)

  -- Of stories that are all held, in front of a target that is held or where none is named, MOVE succeeds.
  -- The running order then lists its stories numbered from 1, the moved ones immediately in front of the
  -- target where it stays, with what stood in front of it and behind it, and otherwise at the end; every
  -- story outside the running order's listing, every item and every running order is as it was.
  pub move_stories_lem :
      (key : Text) (keys : List Text)
      → StoriesKeyed s
      → key_of_target ro target s ≡ (ok key, s)
      → resolve_story_keys ro wire s.stories ≡ (keys, [])
      → ((move_stories now ro target wire s).0 ≡ ok tt)
        × ((placed : List Story) × ArePlaced keys key
              (Stories.list_by_running_order ro s.stories)
              placed
            × (Stories.list_by_running_order ro (move_stories now ro target wire s).1.stories
                ≡ numbered now 1 placed))
        × ((k : Text)
            → has_ident story_ident k (Stories.list_by_running_order ro s.stories) ≡ false
            → lookup k (move_stories now ro target wire s).1.stories ≡ lookup k s.stories)
        × ((move_stories now ro target wire s).1.items ≡ s.items)
        × ((move_stories now ro target wire s).1.running_orders ≡ s.running_orders)
  move_stories_lem key keys k t r = rw (move_stories_run key keys k t r) (
    publish-ok _ _,
    (
      moved_order keys key listed,
      moved_order-ArePlaced keys key listed,
      rw stories-publish (
          listing_renumbered now ro (moved_order keys key listed) s.stories k
            (moved_order-distinct keys key listed (listing-distinct ro s.stories k))
            (moved_order-In keys key listed) (In-moved_order keys key listed)
          ∙ renumber-numbered now 1 (moved_order keys key listed)),
    ),
    λ j n. rw stories-publish (
        lookup_unlisted now ro (moved_order keys key listed) s.stories j
          (moved_order-In keys key listed) n),
    items-publish _ _,
    running_orders-publish _ _,
  )

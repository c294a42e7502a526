-- ===== src/Repository/Items.antt =====
-- MemoryItemRepository of src/internal/repository/memory.go.
use open_mos.Prelude.{Bool, List}
use open_mos.Text.{Text, same}
use open_mos.Outcome.{Result}
use open_mos.Model.{Item}
use open_mos.Table.{Table}
use open_mos.Table.Selected.{selected}
use open_mos.Repository

abbrev pub create : Item → Table Item → Result (Table Item)
create = Repository.create (λ x. x.id)

abbrev pub get : Text → Table Item → Result Item
get = Repository.get

abbrev pub update : Item → Table Item → Result (Table Item)
update = Repository.update (λ x. x.id)

abbrev pub delete : Text → Table Item → Table Item
delete = Repository.delete

abbrev pub delete_multiple : List Text → Table Item → Table Item
delete_multiple = Repository.delete_multiple

abbrev pub is_in : Text → Item → Bool
is_in story i = same i.story_id story

-- The items of a story, by their order and then by their identifier.
unfoldable pub list_by_story : Text → Table Item → List Item
list_by_story story = selected (λ i. i.order) (λ i. i.id) (is_in story)

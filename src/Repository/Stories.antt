-- ===== src/Repository/Stories.antt =====
-- MemoryStoryRepository of src/internal/repository/memory.go.
use open_mos.Prelude.{Bool, List}
use open_mos.Text.{Text, same}
use open_mos.Outcome.{Result}
use open_mos.Model.{Story}
use open_mos.Table.{Table}
use open_mos.Table.Selected.{selected}
use open_mos.Repository

abbrev pub create : Story → Table Story → Result (Table Story)
create = Repository.create (λ x. x.id)

abbrev pub get : Text → Table Story → Result Story
get = Repository.get

abbrev pub update : Story → Table Story → Result (Table Story)
update = Repository.update (λ x. x.id)

abbrev pub delete : Text → Table Story → Table Story
delete = Repository.delete

abbrev pub delete_multiple : List Text → Table Story → Table Story
delete_multiple = Repository.delete_multiple

abbrev pub is_in : Text → Story → Bool
is_in ro s = same s.running_order_id ro

-- The stories of a running order, by their order and then by their identifier.
unfoldable pub list_by_running_order : Text → Table Story → List Story
list_by_running_order ro = selected (λ s. s.order) (λ s. s.id) (is_in ro)

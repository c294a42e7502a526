-- ===== src/Repository/Objects.antt =====
-- MemoryObjectRepository of src/internal/repository/memory.go.
use open_mos.Prelude.{List}
use open_mos.Text.{Text}
use open_mos.Outcome.{Result}
use open_mos.Model.{MosObject}
use open_mos.Table.{Table, values}
use open_mos.Repository

abbrev pub create : MosObject → Table MosObject → Result (Table MosObject)
create = Repository.create (λ x. x.id)

abbrev pub get : Text → Table MosObject → Result MosObject
get = Repository.get

abbrev pub update : MosObject → Table MosObject → Result (Table MosObject)
update = Repository.update (λ x. x.id)

-- In the order of the map's iteration, which Go leaves open.
unfoldable pub list : Table MosObject → List MosObject
list t = values t

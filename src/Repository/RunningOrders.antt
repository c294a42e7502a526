-- ===== src/Repository/RunningOrders.antt =====
-- MemoryRunningOrderRepository of src/internal/repository/memory.go.
use open_mos.Prelude.{List}
use open_mos.Text.{Text}
use open_mos.Outcome.{Result}
use open_mos.Model.{RunningOrder}
use open_mos.Table.{Table, values}
use open_mos.Repository

abbrev pub create : RunningOrder → Table RunningOrder → Result (Table RunningOrder)
create = Repository.create (λ x. x.id)

abbrev pub get : Text → Table RunningOrder → Result RunningOrder
get = Repository.get

abbrev pub update : RunningOrder → Table RunningOrder → Result (Table RunningOrder)
update = Repository.update (λ x. x.id)

abbrev pub delete : Text → Table RunningOrder → Table RunningOrder
delete = Repository.delete

-- In the order of the map's iteration, which Go leaves open.
unfoldable pub list : Table RunningOrder → List RunningOrder
list t = values t

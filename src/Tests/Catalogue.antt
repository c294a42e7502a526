-- ===== src/Tests/Catalogue.antt =====
-- Objects that are stored and asked for.
use open_mos.Prelude.{ℕ, ◌≡◌, ◌≢◌, refl, [], ◌∷◌, none}
use open_mos.Text.{Text, text}
use open_mos.Text.Number.{pos}
use open_mos.Outcome.{ok}
use open_mos.Model.{zero_mos_object}
use open_mos.Table.{lookup}
use open_mos.Service.{MosService}
use open_mos.Service.ObjectStore.{store_object, get_object}
use open_mos.Service.ObjectStore.Stored.{object_head, get_object-store_object}
use open_mos.Wire.Objects.{MosObj, zero_mos_obj}

abbrev server : MosService
server = record {
  running_orders = [];
  stories = [];
  items = [];
  objects = (text "O1", record zero_mos_object { id = text "O1"; slug = text "Old" }) ∷ [];
  event_bus = none;
}

abbrev hotel_fire : MosObj
hotel_fire = record zero_mos_obj {
  obj_id = text "O1";
  obj_slug = text "Hotel Fire";
  obj_type = text "VIDEO";
  obj_tb = pos 50;
  obj_dur = pos 800;
}

abbrev at_noon : ℕ → Text
at_noon now = text "12:00"

get_object-store_object_example :
    ((store_object 7 hotel_fire server).0 ≡ ok tt)
    × ((o : MosObj) × (get_object at_noon (text "O1") (store_object 7 hotel_fire server).1 ≡ ok o)
        × (object_head o ≡ object_head hotel_fire))
    × ((other : Text)
        → text "O1" ≢ other
        → get_object at_noon other (store_object 7 hotel_fire server).1
          ≡ get_object at_noon other server)
unfolding lookup
get_object-store_object_example =
    get_object-store_object at_noon 7 hotel_fire server (refl, refl, tt)

-- ===== src/Service/Control/Commands.antt =====
-- ProcessROCtrl of src/internal/service/control.go, on every branch.
use open_mos.Prelude.{[], ◌≡◌, ◌≢◌, ◌⊎◌, none, some}
use open_mos.Text.{Text, text}
use open_mos.Model.{Time, Item}
use open_mos.Table.{Table, lookup}
use open_mos.Repository.Items
use open_mos.Wire.StorySend.{RoCtrl}
use open_mos.Service.{MosService}

-- The status that each command gives; no other command is supported.
abbrev pub IsStatusOf : Text → Text → Type 0
IsStatusOf command status =
    ((command ≡ text "READY") × (status ≡ text "READY"))
    ⊎ (((command ≡ text "EXECUTE") × (status ≡ text "PLAY"))
        ⊎ (((command ≡ text "PAUSE") × (status ≡ text "PAUSED"))
            ⊎ (((command ≡ text "STOP") × (status ≡ text "STOPPED"))
                ⊎ ((command ≡ text "SIGNAL") × (status ≡ text "SIGNAL")))))

-- What a command makes of an item: its status, what is noted of the command, and nothing else.
pub record IsCommandedItem (format_time : Time → Text) (now : Time) (command status : Text)
    (i j : Item) : Type 0 where
  pub new_status : j.status ≡ status
  pub last_command : lookup (text "lastCommand") j.metadata ≡ some command
  pub last_time : lookup (text "lastCommandTime") j.metadata ≡ some (format_time now)
  pub unchanged : j ≡ record i { status = status; updated_at = now; metadata = j.metadata }

-- The items before and after a command on one of them, or on none.
abbrev pub AreCommanded : (Time → Text) → Time → RoCtrl → Text → Table Item → Table Item → Type 0
AreCommanded format_time now m status before after =
    ((m.item_id ≡ []) × (after ≡ before)
      ⊎ (i j : Item) × (lookup m.item_id before ≡ some i)
        × (lookup m.item_id after ≡ some j)
        × IsCommandedItem format_time now m.command status i j)
    × ((k : Text) → m.item_id ≢ k → lookup k after ≡ lookup k before)

-- What a roCtrl that is accepted makes of the state.
pub record IsCommanded (format_time : Time → Text) (now : Time) (m : RoCtrl) (s u : MosService)
    : Type 0 where
  pub status : Text
  pub supported : IsStatusOf m.command status
  pub items_after : AreCommanded format_time now m status s.items u.items
  pub same_stories : u.stories ≡ s.stories
  pub same_running_orders : u.running_orders ≡ s.running_orders

-- A roCtrl that is refused: its command is not supported, or no item is held under its itemID.
abbrev pub IsRefused : RoCtrl → MosService → Type 0
IsRefused m s =
    ((status : Text) → IsStatusOf m.command status → ⊥)
    ⊎ ((m.item_id ≢ []) × (lookup m.item_id s.items ≡ none))

-- ===== src/Catalog/Requests.antt =====
-- The table of the catalog through the requests of its service.
use workshop_service.Base.{ℕ, ◌≡◌, none, []}
use workshop_service.Text.{Text, ◌===◌}
use workshop_service.Errors.Action.{Action}
use workshop_service.Persistence.{find?}
use workshop_service.Catalog.{Item, ItemReadings, UpdateItemProps}
use workshop_service.Catalog.Service.{ItemTable, ItemOrm, CreateItem, create, update, delete}
use workshop_service.Catalog.Names.{IsCatalog, create-Keeps, update-Keeps, delete-Keeps}

-- The requests of the service that may write.
pub data Request : Type 0 where
  creates : CreateItem → Request
  updates : Text → UpdateItemProps → Request
  deletes : Text → Request

unfoldable pub serve : ItemOrm → ItemReadings → ℕ → Request → Action ItemTable Item
unfolding create update delete
serve orm now at (creates dto) = create orm now dto
serve orm now at (updates id dto) = update orm now at id dto
serve orm now at (deletes id) = delete orm now at id

-- The tables that requests lead to from an empty one, each with a new identifier, and with the
-- database that it meets.
pub data Served : ItemTable → Type 0 where
  nothing : Served []
  served :
      {t : ItemTable} (orm : ItemOrm) (now : ItemReadings) (at : ℕ) (r : Request)
      → Served t
      → find? (λ row. row.id === now.fresh_id) t ≡ none
      → Served (serve orm now at r t).1

serve-IsCatalog :
    (orm : ItemOrm) (now : ItemReadings) (at : ℕ) (r : Request) (t : ItemTable)
    → IsCatalog t
    → find? (λ row. row.id === now.fresh_id) t ≡ none
    → IsCatalog (serve orm now at r t).1
unfolding serve
serve-IsCatalog orm now at (creates dto) t h fresh = create-Keeps orm now t h dto fresh
serve-IsCatalog orm now at (updates id dto) t h fresh = update-Keeps orm now t h at id dto
serve-IsCatalog orm now at (deletes id) t h fresh = delete-Keeps orm now t h at id

-- From an empty table, every sequence of requests, returned or thrown, each with a fresh
-- identifier and with the answers and faults of the database that come, leads to a catalog whose
-- rows can be read back and of which no two have the same id or name.
pub Served-IsCatalog : {t : ItemTable} → Served t → IsCatalog t
Served-IsCatalog nothing = record { rows = tt; ids = tt; names = tt }
Served-IsCatalog (served {t} orm now at r before fresh) =
    serve-IsCatalog orm now at r t (Served-IsCatalog before) fresh

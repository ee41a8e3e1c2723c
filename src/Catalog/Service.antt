-- ===== src/Catalog/Service.antt =====
-- ServiceCatalogService (service-catalog/application/services/service-catalog.service.ts), with the
-- table, its mapper and its repository (service-catalog/infrastructure). The answer of an operation
-- is the item itself. The driver gives a decimal column as a string; it stands here for its number.
use workshop_service.Base.{ℕ, Bool, ◌&&◌, not, Option, none, some, List, [], ◌∷◌, if◌then◌else◌}
use workshop_service.Number.{Number}
use workshop_service.Text.{Text, text, trim, is_empty, ◌===◌}
use workshop_service.Errors
use workshop_service.Errors.{Failure, text_detail, Result, ok, err, or_raise}
use workshop_service.Errors.Action.{Action, raise, lift, ◌>>=◌}
use workshop_service.Persistence.{Orm}
use workshop_service.Part.{refuse}
use workshop_service.Catalog.{
  Item, ItemProps, ItemReadings, UpdateItemProps, create_item, update_item, deactivate,
}

-- service-catalog/infrastructure/typeorm/service-catalog-item.orm-entity.ts
pub record ItemRow : Type 0 where
  pub id : Text
  pub name : Text
  pub description : Option Text
  pub price : Number
  pub estimated_minutes : Number
  pub active : Bool
  pub created_at : ℕ
  pub updated_at : ℕ

unfoldable pub same_item : ItemRow → ItemRow → Bool
same_item a b = b.id === a.id

-- `ServiceCatalogItemMapper.toOrmEntity`: an empty description is stored as NULL.
unfoldable pub item_to_orm : Item → ItemRow
item_to_orm i = record {
  id = i.id;
  name = i.name;
  description = if is_empty i.description then none else some i.description;
  price = i.price;
  estimated_minutes = i.estimated_minutes;
  active = i.active;
  created_at = i.created_at;
  updated_at = i.updated_at;
}

-- `ServiceCatalogItemMapper.toDomain`, which validates the row.
unfoldable pub item_to_domain : ItemReadings → ItemRow → Result Item
item_to_domain now row = create_item now (record {
  id = some row.id;
  name = row.name;
  description = row.description;
  price = row.price;
  estimated_minutes = row.estimated_minutes;
  active = some row.active;
  created_at = some row.created_at;
  updated_at = some row.updated_at;
})

abbrev pub ItemTable : Type 0
ItemTable = List ItemRow

abbrev pub ItemOrm : Type 0
ItemOrm = Orm ItemRow same_item

-- `ormEntity ? toDomain(ormEntity) : null`
abbrev pub item_of : ItemReadings → Result (Option ItemRow) → Result (Option Item)
item_of now (err f) = err f
item_of now (ok none) = ok none
item_of now (ok (some row)) = Errors.◌>>=◌ (item_to_domain now row) (λ i. ok (some i))

-- `findById`
unfoldable pub find_item : ItemOrm → ItemReadings → Text → Action ItemTable (Option Item)
find_item orm now id t = (item_of now (orm.find_one (λ row. row.id === id) t), t)

-- `findByName`
unfoldable pub find_named : ItemOrm → ItemReadings → Text → Action ItemTable (Option Item)
find_named orm now name t = (item_of now (orm.find_one (λ row. row.name === trim name) t), t)

abbrev pub saved : ItemReadings → Item → Result ItemTable → Action ItemTable Item
saved now i (ok rows) t = (item_to_domain now (item_to_orm i), rows)
saved now i (err f) t = (err f, t)

-- `save`
unfoldable pub save_item : ItemOrm → ItemReadings → Item → Action ItemTable Item
save_item orm now i t = saved now i (orm.save (item_to_orm i) t) t

-- service-catalog/domain/exceptions
unfoldable pub already_exists : Text → Failure
already_exists name =
    refuse (text "SERVICE_CATALOG_ITEM_ALREADY_EXISTS")
      (text "Service catalog item already exists.") (("name", text_detail name) ∷ [])

unfoldable pub not_found : Text → Failure
not_found identifier =
    refuse (text "SERVICE_CATALOG_ITEM_NOT_FOUND") (text "Service catalog item was not found.")
      (("identifier", text_detail identifier) ∷ [])

-- CreateServiceCatalogItemDto
pub record CreateItem : Type 0 where
  pub name : Text
  pub description : Option Text
  pub price : Number
  pub estimated_minutes : Number

abbrev pub trimmed : Option Text → Option Text
trimmed none = none
trimmed (some s) = some (trim s)

abbrev pub new_props : CreateItem → ItemProps
new_props dto = record {
  id = none;
  name = trim dto.name;
  description = trimmed dto.description;
  price = dto.price;
  estimated_minutes = dto.estimated_minutes;
  active = none;
  created_at = none;
  updated_at = none;
}

-- `create`, from the look-up on.
unfoldable pub create_unless :
    ItemOrm → ItemReadings → CreateItem → Option Item → Action ItemTable Item
unfolding already_exists
create_unless orm now dto (some existing) = raise (already_exists (trim dto.name))
create_unless orm now dto none = lift (create_item now (new_props dto)) >>= save_item orm now

-- `create`
unfoldable pub create : ItemOrm → ItemReadings → CreateItem → Action ItemTable Item
unfolding create_unless
create orm now dto = find_named orm now (trim dto.name) >>= create_unless orm now dto

-- `findById` and `findByName` of the service
unfoldable pub get_item : ItemOrm → ItemReadings → Text → Action ItemTable Item
unfolding not_found
get_item orm now id = find_item orm now id >>= λ found. lift (or_raise found (not_found id))

unfoldable pub get_named : ItemOrm → ItemReadings → Text → Action ItemTable Item
unfolding not_found
get_named orm now name =
    find_named orm now (trim name) >>= λ found. lift (or_raise found (not_found name))

abbrev pub store_updated : ItemOrm → ItemReadings → Result (Unit {0}) × Item → Action ItemTable Item
store_updated orm now (ok done, item) t = save_item orm now item t
store_updated orm now (err f, item) t = (err f, t)

-- The change of an item that this call holds, and its save.
unfoldable pub save_updated :
    ItemOrm → ItemReadings → ℕ → UpdateItemProps → Item → Action ItemTable Item
save_updated orm now at props item = store_updated orm now (update_item props at item)

abbrev pub trimmed_props : UpdateItemProps → UpdateItemProps
trimmed_props dto = record dto { name = trimmed dto.name; description = trimmed dto.description }

-- `update`, from the look-up of the name on.
unfoldable pub update_unless :
    ItemOrm → ItemReadings → ℕ → UpdateItemProps → Text → Item → Option Item → Action ItemTable Item
unfolding already_exists save_updated
update_unless orm now at dto name item (some existing) = raise (already_exists name)
update_unless orm now at dto name item none = save_updated orm now at (trimmed_props dto) item

-- `trimmedName && trimmedName !== item.name`
unfoldable pub update_named :
    ItemOrm → ItemReadings → ℕ → UpdateItemProps → Item → Option Text → Action ItemTable Item
unfolding update_unless save_updated
update_named orm now at dto item none = save_updated orm now at (trimmed_props dto) item
update_named orm now at dto item (some name) =
    if not (is_empty name) && not (name === item.name)
    then (find_named orm now name >>= update_unless orm now at dto name item)
    else save_updated orm now at (trimmed_props dto) item

unfoldable pub update_found :
    ItemOrm → ItemReadings → ℕ → Text → UpdateItemProps → Option Item → Action ItemTable Item
unfolding update_named not_found
update_found orm now at id dto none = raise (not_found id)
update_found orm now at id dto (some item) = update_named orm now at dto item (trimmed dto.name)

-- `update`
unfoldable pub update : ItemOrm → ItemReadings → ℕ → Text → UpdateItemProps → Action ItemTable Item
unfolding update_found
update orm now at id dto = find_item orm now id >>= update_found orm now at id dto

unfoldable pub delete_found :
    ItemOrm → ItemReadings → ℕ → Text → Option Item → Action ItemTable Item
unfolding not_found
delete_found orm now at id none = raise (not_found id)
delete_found orm now at id (some item) = save_item orm now (deactivate at item)

-- `delete`
unfoldable pub delete : ItemOrm → ItemReadings → ℕ → Text → Action ItemTable Item
unfolding delete_found
delete orm now at id = find_item orm now id >>= delete_found orm now at id

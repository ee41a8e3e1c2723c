-- ===== src/Catalog/Rows.antt =====
-- The rows of the catalog, and the entities that they hold.
use workshop_service.Base.{ℕ, ◌≡◌, refl, none, some, [], ◌∷◌, get_or, arith, sym, if◌then◌else◌}
use mathlib.Core.Path.{subst}
use workshop_service.Text.{Text, trim, is_empty}
use workshop_service.Errors.{ok}
use workshop_service.Catalog.{
  Item, ItemProps, ItemReadings, UpdateItemProps, item_from, create_item, update_item, validate,
}
use workshop_service.Catalog.Service.{ItemRow, item_to_orm, item_to_domain}

-- The item of a row, field by field.
abbrev pub as_item : ItemRow → Item
as_item row = record {
  id = row.id;
  name = row.name;
  description = get_or row.description [];
  price = row.price;
  estimated_minutes = row.estimated_minutes;
  active = row.active;
  created_at = row.created_at;
  updated_at = row.updated_at;
}

-- A row that can be read back, with a trimmed name.
pub record IsListed (row : ItemRow) : Type 0 where
  pub valid : validate (as_item row) ≡ ok tt
  pub name : trim row.name ≡ row.name

stored_description : (d : Text) → get_or (if is_empty d then none else some d) [] ≡ d
stored_description [] = refl
stored_description (c ∷ d) = refl

as_item-item_to_orm : (i : Item) → as_item (item_to_orm i) ≡ i
unfolding item_to_orm
as_item-item_to_orm i = ground (arith, stored_description i.description)

pub item_to_domain_lem :
    (now : ItemReadings) (row : ItemRow) → IsListed row → item_to_domain now row ≡ ok (as_item row)
unfolding item_to_domain create_item
item_to_domain_lem now row h = ground (arith, h.valid)

pub item_to_orm-IsListed :
    (i : Item) → validate i ≡ ok tt → trim i.name ≡ i.name → IsListed (item_to_orm i)
unfolding item_to_orm
item_to_orm-IsListed i h n = record {
  valid = subst (λ x. validate x ≡ ok tt) (sym (as_item-item_to_orm i)) h;
  name = n;
}

pub create_item_valid :
    (now : ItemReadings) (props : ItemProps) (i : Item)
    → create_item now props ≡ ok i
    → (validate i ≡ ok tt) × (i ≡ item_from now props)
unfolding create_item
create_item_valid now props i h = ground arith

-- What an update that returned has left.
pub update_item_valid :
    (props : UpdateItemProps) (at : ℕ) (i i' : Item)
    → validate i ≡ ok tt
    → update_item props at i ≡ (ok tt, i')
    → (validate i' ≡ ok tt) × (i'.id ≡ i.id) × (i'.name ≡ get_or props.name i.name)
unfolding update_item validate
update_item_valid props at i i' v h = ground arith

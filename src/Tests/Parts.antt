-- ===== src/Tests/Parts.antt =====
-- The part service: the theorems at concrete runs.
use workshop_service.Base.{
  Bool, ℕ, suc, ◌+◌, ◌-◌, ◌/◌, ◌≡◌, refl, true, none, some, List, [], ◌∷◌, length, arith,
}
use workshop_service.Number.{number}
use workshop_service.Text.{
  text, ◌===◌, trim, trim_start, trim_end, is_space, to_upper_case, upper_unit,
}
use workshop_service.Persistence.{find?}
use workshop_service.Errors.{ok}
use workshop_service.Part.{
  Part, create_code, is_valid_code, match_letters, match_digits, validate, validate_name,
  validate_description, validate_unit_price, validate_available_quantity,
  validate_reserved_quantity, validate_minimum_quantity, validate_unit,
}
use workshop_service.Inventory.{Inventory, PartRow, part_to_orm}
use workshop_service.Inventory.Rows.{ArePartsReadable}
use workshop_service.Listing.{ascending}
use workshop_service.Listing.Pages.{nth_page, ArePages}
use workshop_service.Parts.{CreatePart}
use workshop_service.Parts.Codes.{IsStore}
use workshop_service.Parts.Requests.{nothing, served, creates, serve, Served-IsStore}
use workshop_service.Parts.Listing.{
  PartFilters, by_name, select_parts, part_conditions, find_all, normalized_filters,
}
use workshop_service.Parts.Paging.{listed, IsUntied, find_all-pages}
use workshop_service.Tests.{querying, querying-Answers}
use workshop_service.Tests.Inventories.{pads, pads-IsAccepted, database, database-Answers, moments}

abbrev no_parts : Inventory
no_parts = record { parts = []; reservations = [] }

abbrev oil : CreatePart
oil = record {
  code = text " oil-123 ";
  name = text "Engine oil";
  description = none;
  unit_price = number 45;
  available_quantity = number 100;
  minimum_quantity = number 10;
  unit = text "l";
}

Served-IsStore_example : IsStore (serve database moments (creates oil) no_parts).1.parts
unfolding find?
Served-IsStore_example =
    Served-IsStore (served database moments (creates oil) database-Answers (nothing refl) refl)

-- Names tie.
abbrev same_name : PartRow → PartRow → Bool
same_name a b = a.name === b.name

abbrev shelf : List PartRow
shelf =
    part_to_orm pads
    ∷ record (part_to_orm pads) { id = text "p-2"; name = text "Brake pads, rear" }
    ∷ record (part_to_orm pads) { id = text "p-3"; name = text "Brake pads, front" }
    ∷ []

shelf-IsReadable : ArePartsReadable shelf
unfolding part_to_orm create_code is_valid_code match_letters match_digits validate validate_name
    validate_description validate_unit_price validate_available_quantity validate_reserved_quantity
    validate_minimum_quantity validate_unit trim trim_start trim_end is_space to_upper_case
    upper_unit text
shelf-IsReadable = (
  pads-IsAccepted,
  (record { code = refl; valid = refl }, (record { code = refl; valid = refl }, tt)),
)

-- Two parts to a page.
abbrev two_each : PartFilters
two_each = record {
  code = none;
  name = none;
  min_price = some (number 10);
  max_price = none;
  unit = none;
  only_below_minimum_stock = none;
  only_with_stock = some true;
  active = none;
  page = none;
  limit = some 2;
  order_by = some by_name;
  order = some ascending;
}

abbrev listing : List Part
listing =
    listed (querying same_name) (querying-Answers same_name) moments.part shelf shelf-IsReadable
      two_each

shelf-IsUntied :
    IsUntied
      (querying same_name)
      (querying-Answers same_name)
      moments.part
      shelf
      shelf-IsReadable
      two_each
unfolding part_conditions part_to_orm ◌===◌ text
shelf-IsUntied = ((refl, (refl, tt)), ((refl, tt), (tt, tt)))

find_all-pages_example :
    (select_parts
        (querying same_name)
        moments.part
        (record (normalized_filters two_each) { page = none; limit = none })
        shelf
      ≡ ok listing)
    × ((k : ℕ)
        → find_all (querying same_name) moments.part (record two_each { page = some (suc k) }) shelf
          ≡ ok (record {
            content = nth_page 2 k listing;
            meta = record {
              total = length listing;
              page = suc k;
              limit = 2;
              total_pages = some ((length listing + 2 - 1) / 2);
            };
          }))
    × ArePages 2 listing
find_all-pages_example =
    find_all-pages (querying same_name) (querying-Answers same_name) moments.part shelf
      shelf-IsReadable two_each (omega arith) shelf-IsUntied

-- ===== src/Parts/Listing.antt =====
-- The lists of parts: TypeOrmPartRepository (part/infrastructure/repositories) and `findAll` of
-- PartService (part/application/services/part.service.ts). The answer holds the parts themselves.
use workshop_service.Base.{
  ℕ, Bool, true, Option, none, some, List, [], ◌∷◌, get_or, length, not, if◌then◌else◌,
}
use workshop_service.Number.{Number, number, at_most, less}
use workshop_service.Text.{Text, text, to_upper_case, ◌===◌}
use workshop_service.Errors.{Result, ok, ◌>>=◌, map_result}
use workshop_service.Part.{Part, PartReadings}
use workshop_service.Inventory.{PartRow, part_to_domain}
use workshop_service.Parts.{trimmed, upper}
use workshop_service.Listing.{
  Direction, descending, Query, Engine, when_text, when_flag, when_given, limit_of, offset_of,
  PaginatedResponse, total_pages,
}

-- part/domain/repositories/part-filters.interface.ts
pub data PartOrder : Type 0 where
  by_code by_name by_unit_price by_available_quantity by_created_at : PartOrder

pub record PartFilters : Type 0 where
  pub code : Option Text
  pub name : Option Text
  pub min_price : Option Number
  pub max_price : Option Number
  pub unit : Option Text
  pub only_below_minimum_stock : Option Bool
  pub only_with_stock : Option Bool
  pub active : Option Bool
  pub page : Option ℕ
  pub limit : Option ℕ
  pub order_by : Option PartOrder
  pub order : Option Direction

-- `toOrderByColumn`
unfoldable pub to_order_by_column : Option PartOrder → Text
to_order_by_column (some by_code) = text "part.code"
to_order_by_column (some by_name) = text "part.name"
to_order_by_column (some by_unit_price) = text "part.unit_price"
to_order_by_column (some by_available_quantity) = text "part.available_quantity"
to_order_by_column other = text "part.created_at"

abbrev pub PartEngine : Type 1
PartEngine = Engine PartRow Text

abbrev is_active : Bool → PartRow → Bool
is_active active row = if active then row.active else not row.active

-- The conditions that `findAll` of the repository adds.
unfoldable pub part_conditions : PartEngine → PartFilters → List (PartRow → Bool)
part_conditions engine f =
    (λ (row : PartRow). is_active (get_or f.active true) row)
    ∷ when_text f.code (λ s row. engine.upper_like row.code s)
        (when_text f.name (λ s row. engine.lower_like row.name s)
          (when_given f.min_price (λ n row. at_most n row.unit_price)
            (when_given f.max_price (λ n row. at_most row.unit_price n)
              (when_text f.unit (λ s row. row.unit === to_upper_case s)
                (when_flag f.only_below_minimum_stock
                  (λ row. less row.available_quantity row.minimum_quantity)
                  (when_flag f.only_with_stock (λ row. less (number 0) row.available_quantity)
                    []))))))

unfoldable pub part_query : PartEngine → PartFilters → Query PartRow Text
unfolding part_conditions to_order_by_column
part_query engine f = record {
  conditions = part_conditions engine f;
  order = some (to_order_by_column f.order_by, get_or f.order descending);
  limit = limit_of f.limit;
  offset = offset_of f.page f.limit;
}

-- `TypeOrmPartRepository.findAll`
unfoldable pub select_parts :
    PartEngine → PartReadings → PartFilters → List PartRow → Result (List Part)
unfolding part_query
select_parts engine now f t =
    engine.get_many (part_query engine f) t >>= map_result (part_to_domain now)

-- `findBelowMinimumStock`, of the repository and of the service.
unfoldable pub find_below_minimum_stock :
    PartEngine → PartReadings → List PartRow → Result (List Part)
find_below_minimum_stock engine now t =
    engine.get_many
      (record {
        conditions =
            (λ (row : PartRow). less row.available_quantity row.minimum_quantity)
            ∷ (λ (row : PartRow). row.active)
            ∷ [];
        order = none;
        limit = none;
        offset = none;
      })
      t
    >>= map_result (part_to_domain now)

abbrev pub given_page : PartFilters → ℕ
given_page f = get_or f.page 1

abbrev pub given_limit : PartFilters → ℕ
given_limit f = get_or f.limit 10

abbrev pub normalized_filters : PartFilters → PartFilters
normalized_filters f = record f {
  code = upper (trimmed f.code);
  unit = upper f.unit;
  page = some (given_page f);
  limit = some (given_limit f);
}

-- The filters of the second query, which counts.
abbrev pub counted_filters : PartFilters → PartFilters
counted_filters f = record f {
  code = upper (trimmed f.code);
  unit = upper f.unit;
  page = none;
  limit = none;
  order_by = none;
  order = none;
}

-- `PartService.findAll`
unfoldable pub find_all :
    PartEngine → PartReadings → PartFilters → List PartRow → Result (PaginatedResponse Part)
find_all engine now f t = do
  parts ← select_parts engine now (normalized_filters f) t
  all_parts ← select_parts engine now (counted_filters f) t
  ok (record {
    content = parts;
    meta = record {
      total = length all_parts;
      page = given_page f;
      limit = given_limit f;
      total_pages = total_pages (length all_parts) (given_limit f);
    };
  })

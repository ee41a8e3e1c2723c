-- ===== src/Catalog/Listing.antt =====
-- The lists of the catalog: TypeOrmServiceCatalogItemRepository
-- (service-catalog/infrastructure/repositories) and `findAll` of ServiceCatalogService
-- (service-catalog/application/services/service-catalog.service.ts). The answer holds the items
-- themselves.
use workshop_service.Base.{
  ℕ, Bool, Option, none, some, List, [], get_or, length, not, if◌then◌else◌,
}
use workshop_service.Number.{Number, at_most}
use workshop_service.Text.{Text, text}
use workshop_service.Errors.{Result, ok, ◌>>=◌, map_result}
use workshop_service.Catalog.{Item, ItemReadings}
use workshop_service.Catalog.Service.{ItemRow, item_to_domain}
use workshop_service.Listing.{
  Direction, descending, Query, Engine, when_text, when_given, limit_of, offset_of,
  PaginatedResponse, total_pages,
}

-- service-catalog/domain/repositories/service-catalog-item-filters.interface.ts
pub data ItemOrder : Type 0 where
  by_name by_price by_estimated_minutes by_created_at : ItemOrder

pub record ItemFilters : Type 0 where
  pub name : Option Text
  pub min_price : Option Number
  pub max_price : Option Number
  pub min_estimated_minutes : Option Number
  pub max_estimated_minutes : Option Number
  pub active : Option Bool
  pub page : Option ℕ
  pub limit : Option ℕ
  pub order_by : Option ItemOrder
  pub order : Option Direction

-- `toOrderByColumn`
unfoldable pub to_order_by_column : Option ItemOrder → Text
to_order_by_column (some by_name) = text "serviceCatalogItem.name"
to_order_by_column (some by_price) = text "serviceCatalogItem.price"
to_order_by_column (some by_estimated_minutes) = text "serviceCatalogItem.estimated_minutes"
to_order_by_column other = text "serviceCatalogItem.created_at"

abbrev pub ItemEngine : Type 1
ItemEngine = Engine ItemRow Text

-- The conditions that `findAll` of the repository adds.
unfoldable pub item_conditions : ItemEngine → ItemFilters → List (ItemRow → Bool)
item_conditions engine f =
    when_text f.name (λ s row. engine.lower_like row.name s)
      (when_given f.min_price (λ n row. at_most n row.price)
        (when_given f.max_price (λ n row. at_most row.price n)
          (when_given f.min_estimated_minutes (λ n row. at_most n row.estimated_minutes)
            (when_given f.max_estimated_minutes (λ n row. at_most row.estimated_minutes n)
              (when_given f.active (λ active row. if active then row.active else not row.active)
                [])))))

unfoldable pub item_query : ItemEngine → ItemFilters → Query ItemRow Text
unfolding item_conditions to_order_by_column
item_query engine f = record {
  conditions = item_conditions engine f;
  order = some (to_order_by_column f.order_by, get_or f.order descending);
  limit = limit_of f.limit;
  offset = offset_of f.page f.limit;
}

-- `TypeOrmServiceCatalogItemRepository.findAll`
unfoldable pub select_items :
    ItemEngine → ItemReadings → ItemFilters → List ItemRow → Result (List Item)
unfolding item_query
select_items engine now f t =
    engine.get_many (item_query engine f) t >>= map_result (item_to_domain now)

abbrev pub given_page : ItemFilters → ℕ
given_page f = get_or f.page 1

abbrev pub given_limit : ItemFilters → ℕ
given_limit f = get_or f.limit 10

abbrev pub normalized_filters : ItemFilters → ItemFilters
normalized_filters f = record f { page = some (given_page f); limit = some (given_limit f) }

-- The filters of the second query, which counts.
abbrev pub counted_filters : ItemFilters → ItemFilters
counted_filters f = record f { page = none; limit = none; order_by = none; order = none }

-- `ServiceCatalogService.findAll`
unfoldable pub find_all :
    ItemEngine → ItemReadings → ItemFilters → List ItemRow → Result (PaginatedResponse Item)
find_all engine now f t = do
  items ← select_items engine now (normalized_filters f) t
  all_items ← select_items engine now (counted_filters f) t
  ok (record {
    content = items;
    meta = record {
      total = length all_items;
      page = given_page f;
      limit = given_limit f;
      total_pages = total_pages (length all_items) (given_limit f);
    };
  })

-- ===== src/Catalog/Paging.antt =====
-- The pages of the catalog.
use workshop_service.Base.{
  ℕ, suc, ◌+◌, ◌-◌, ◌/◌, ◌<◌, ◌≡◌, refl, ap, get_or, none, some, All, List, map, length,
}
use workshop_service.Errors.{ok}
use workshop_service.Catalog.{Item, ItemReadings}
use workshop_service.Catalog.Service.{ItemRow, item_to_domain}
use workshop_service.Catalog.Rows.{as_item, IsListed, item_to_domain_lem}
use workshop_service.Listing.{AnswersQueries, AreUntied, filter, all_of, descending, window}
use workshop_service.Listing.Pages.{nth_page, ArePages, limit-ArePages, total_pages_pos}
use workshop_service.Listing.Queries.{
  selected, get_many-map_result, length-selected, window-nth_page,
}
use workshop_service.Catalog.Listing.{
  ItemEngine, ItemFilters, item_query, item_conditions, to_order_by_column, select_items, find_all,
  given_limit, normalized_filters, counted_filters,
}

module _ (engine : ItemEngine) (up : AnswersQueries engine) (now : ItemReadings) (t : List ItemRow)
    (h : All IsListed t) where
  select_items_lem :
      (f : ItemFilters)
      → let q = item_query engine f in
        select_items engine now f t
        ≡ ok (window q.limit q.offset (map as_item (selected engine q t)))
  unfolding select_items
  select_items_lem f =
      get_many-map_result engine (item_to_domain now) as_item IsListed (item_to_domain_lem now) up
        (item_query engine f) t h

  -- All the items that a filter is about, in its order.
  abbrev pub listed : ItemFilters → List Item
  listed f =
      let all = record (normalized_filters f) { page = none; limit = none } in
      map as_item (selected engine (item_query engine all) t)

  -- No two of the rows that a filter is about tie in its order.
  abbrev pub IsUntied : ItemFilters → Type 0
  IsUntied f =
      AreUntied (engine.tie (to_order_by_column f.order_by))
        (filter (all_of (item_conditions engine (normalized_filters f))) t)

  -- The arrangement of a page is that of the whole list.
  arranged :
      (f : ItemFilters) (page : ℕ)
      → IsUntied f
      → map as_item (
          selected engine
            (item_query engine (normalized_filters (record f { page = some page })))
            t)
        ≡ listed f
  unfolding item_query
  arranged f page untied = ap (map as_item) (
      engine.arrange_untied (to_order_by_column f.order_by) (get_or f.order descending) _ _ _
        untied)

  counted :
      (f : ItemFilters)
      → length (map as_item (selected engine (item_query engine (counted_filters f)) t))
        ≡ length (listed f)
  unfolding item_query
  counted f =
      length-selected engine as_item _ _ _
        (item_query engine (record (normalized_filters f) { page = none; limit = none })) t

  page_lem :
      (f : ItemFilters) (k : ℕ)
      → 0 < given_limit f
      → IsUntied f
      → let l = given_limit f in
        find_all engine now (record f { page = some (suc k) }) t
        ≡ ok (record {
          content = nth_page l k (listed f);
          meta = record {
            total = length (listed f);
            page = suc k;
            limit = l;
            total_pages = some ((length (listed f) + l - 1) / l);
          };
        })
  unfolding find_all item_query
  page_lem f k pos untied =
      let g = record f { page = some (suc k) } in
      rw
        (
          select_items_lem (normalized_filters g),
          select_items_lem (counted_filters g),
          counted f,
          arranged f (suc k) untied,
          window-nth_page (given_limit f) k (listed f) pos,
          total_pages_pos (length (listed f)) (given_limit f) pos,
        )
        refl

  -- When the database answers, every row can be read back, the limit is not 0 and no two of the rows
  -- that a filter is about tie in its order, the list of the filter is what the repository gives for it
  -- with neither page nor limit; the answer of findAll for page k + 1 is its k-th page, with the length
  -- of the list as the total; the pages up to totalPages, one after another, are the list; no page is
  -- longer than the limit; and past totalPages the pages are empty.
  pub find_all-item_pages :
      (f : ItemFilters)
      → 0 < given_limit f
      → IsUntied f
      → let l = given_limit f in
        let all = listed f in
        let n = (length all + l - 1) / l in
        (select_items engine now (record (normalized_filters f) { page = none; limit = none }) t
          ≡ ok all)
        × ((k : ℕ)
            → find_all engine now (record f { page = some (suc k) }) t
              ≡ ok (record {
                content = nth_page l k all;
                meta = record { total = length all; page = suc k; limit = l; total_pages = some n };
              }))
        × ArePages l all
  unfolding item_query
  find_all-item_pages f pos untied =
      let all = listed f in
      let l = given_limit f in
      (
        select_items_lem (record (normalized_filters f) { page = none; limit = none }),
        λ k. page_lem f k pos untied,
        limit-ArePages l all pos,
      )

-- ===== src/Parts/Paging.antt =====
-- The pages of the list of parts.
use workshop_service.Base.{
  ℕ, suc, ◌+◌, ◌-◌, ◌/◌, ◌<◌, ◌≡◌, refl, ap, get_or, none, some, List, map, length,
}
use workshop_service.Errors.{ok}
use workshop_service.Part.{Part, PartReadings}
use workshop_service.Inventory.{PartRow, part_to_domain}
use workshop_service.Inventory.Rows.{as_part, ArePartsReadable, IsAcceptedPart, part_to_domain_lem}
use workshop_service.Listing.{AnswersQueries, AreUntied, filter, all_of, descending, window}
use workshop_service.Listing.Pages.{nth_page, ArePages, limit-ArePages, total_pages_pos}
use workshop_service.Listing.Queries.{
  selected, get_many-map_result, length-selected, window-nth_page,
}
use workshop_service.Parts.Listing.{
  PartEngine, PartFilters, part_query, part_conditions, to_order_by_column, select_parts, find_all,
  given_limit, normalized_filters, counted_filters,
}

module _ (engine : PartEngine) (up : AnswersQueries engine) (now : PartReadings) (t : List PartRow)
    (h : ArePartsReadable t) where
  select_parts_lem :
      (f : PartFilters)
      → let q = part_query engine f in
        select_parts engine now f t
        ≡ ok (window q.limit q.offset (map as_part (selected engine q t)))
  unfolding select_parts
  select_parts_lem f =
      get_many-map_result engine (part_to_domain now) as_part (λ row. IsAcceptedPart (as_part row))
        (part_to_domain_lem now) up (part_query engine f) t h

  -- All the parts that a filter is about, in its order.
  abbrev pub listed : PartFilters → List Part
  listed f =
      let all = record (normalized_filters f) { page = none; limit = none } in
      map as_part (selected engine (part_query engine all) t)

  -- No two of the rows that a filter is about tie in its order.
  abbrev pub IsUntied : PartFilters → Type 0
  IsUntied f =
      AreUntied (engine.tie (to_order_by_column f.order_by))
        (filter (all_of (part_conditions engine (normalized_filters f))) t)

  -- The arrangement of a page is that of the whole list.
  arranged :
      (f : PartFilters) (page : ℕ)
      → IsUntied f
      → map as_part (
          selected engine
            (part_query engine (normalized_filters (record f { page = some page })))
            t)
        ≡ listed f
  unfolding part_query
  arranged f page untied = ap (map as_part) (
      engine.arrange_untied (to_order_by_column f.order_by) (get_or f.order descending) _ _ _
        untied)

  counted :
      (f : PartFilters)
      → length (map as_part (selected engine (part_query engine (counted_filters f)) t))
        ≡ length (listed f)
  unfolding part_query
  counted f =
      length-selected engine as_part _ _ _
        (part_query engine (record (normalized_filters f) { page = none; limit = none })) t

  page_lem :
      (f : PartFilters) (k : ℕ)
      → 0 < given_limit f
      → IsUntied f
      → let l = given_limit f in
        find_all engine now (record f { page = some (suc k) }) t
        ≡ ok (record {
          content = nth_page l k (listed f);
          meta = record {
            total = length (listed f);
            page = suc k;
            limit = l;
            total_pages = some ((length (listed f) + l - 1) / l);
          };
        })
  unfolding find_all part_query
  page_lem f k pos untied =
      let g = record f { page = some (suc k) } in
      rw
        (
          select_parts_lem (normalized_filters g),
          select_parts_lem (counted_filters g),
          counted f,
          arranged f (suc k) untied,
          window-nth_page (given_limit f) k (listed f) pos,
          total_pages_pos (length (listed f)) (given_limit f) pos,
        )
        refl

  -- When the database answers, every row can be read back, the limit is not 0 and no two of the rows
  -- that a filter is about tie in its order, the list of the filter is what the repository gives for it
  -- with neither page nor limit; the answer of findAll for page k + 1 is its k-th page, with the length
  -- of the list as the total; the pages up to totalPages, one after another, are the list; no page is
  -- longer than the limit; and past totalPages the pages are empty.
  pub find_all-pages :
      (f : PartFilters)
      → 0 < given_limit f
      → IsUntied f
      → let l = given_limit f in
        let all = listed f in
        let n = (length all + l - 1) / l in
        (select_parts engine now (record (normalized_filters f) { page = none; limit = none }) t
          ≡ ok all)
        × ((k : ℕ)
            → find_all engine now (record f { page = some (suc k) }) t
              ≡ ok (record {
                content = nth_page l k all;
                meta = record { total = length all; page = suc k; limit = l; total_pages = some n };
              }))
        × ArePages l all
  unfolding part_query
  find_all-pages f pos untied =
      let all = listed f in
      let l = given_limit f in
      (
        select_parts_lem (record (normalized_filters f) { page = none; limit = none }),
        λ k. page_lem f k pos untied,
        limit-ArePages l all pos,
      )

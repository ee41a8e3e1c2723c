-- ===== src/Catalog/Names.antt =====
-- The table of the catalog through each operation of its service.
use workshop_service.Base.{
  ℕ, ◌≡◌, refl, Bool, true, Option, none, some, All, get_or, arith, sym, ap, ◌∙◌, Bool-cases, ◌⊎◌,
  inl, inr,
}
use mathlib.Core.Path.{subst}
use workshop_service.Text.{Text, trim, is_empty, ◌===◌}
use workshop_service.Text.Laws.{===_iff, trim-trim}
use workshop_service.Errors
use workshop_service.Errors.{Result, ok, err, or_raise}
use workshop_service.Errors.Action.{Action, lift, ◌>>=◌}
use workshop_service.Persistence.{find?, upsert}
use workshop_service.Persistence.Tables.{
  upsert-Distinct_other, Distinct, find?-All, find?-holds, upsert-All, upsert-Distinct,
}
use workshop_service.Catalog.{
  Item, ItemReadings, UpdateItemProps, create_item, update_item, deactivate, validate,
  validate_name,
}
use workshop_service.Catalog.Service.{
  ItemRow, ItemTable, ItemOrm, same_item, item_to_orm, item_of, find_item, find_named, saved,
  save_item, CreateItem, new_props, create_unless, create, store_updated, save_updated, trimmed,
  trimmed_props, update_unless, update_named, update_found, update, delete_found, delete,
}
use workshop_service.Catalog.Rows.{
  as_item, IsListed, item_to_domain_lem, item_to_orm-IsListed, create_item_valid, update_item_valid,
}

-- Rows that can be read back, and no two with the same id or name.
pub record IsCatalog (t : ItemTable) : Type 0 where
  pub rows : All IsListed t
  pub ids : Distinct (λ row. row.id) t
  pub names : Distinct (λ row. row.name) t

abbrev pub Keeps : Result Item × ItemTable → Type 0
Keeps r = IsCatalog r.1

module _ (orm : ItemOrm) (now : ItemReadings) (i : Item) (t : ItemTable) (h : IsCatalog t)
    (valid : validate i ≡ ok tt) (name : trim i.name ≡ i.name) where
  -- A save, by the table that it would write.
  saved-Keeps : IsCatalog (upsert same_item (item_to_orm i) t) → Keeps (save_item orm now i t)
  unfolding save_item
  saved-Keeps k = written (orm.save (item_to_orm i) t) refl
    where
      written : (r : Result ItemTable) → orm.save (item_to_orm i) t ≡ r → Keeps (saved now i r t)
      written (ok rows) e = subst IsCatalog (sym (orm.save_lem (item_to_orm i) t rows e)) k
      written (err f) e = h

  new-Keeps :
      find? (λ row. row.id === i.id) t ≡ none
      → find? (λ row. row.name === i.name) t ≡ none
      → Keeps (save_item orm now i t)
  unfolding same_item item_to_orm
  new-Keeps fresh unused = saved-Keeps (record {
    rows =
        upsert-All IsListed same_item (item_to_orm i) t h.rows (item_to_orm-IsListed i valid name);
    ids = upsert-Distinct_other same_item (λ row. row.id) (item_to_orm i) t fresh h.ids;
    names = upsert-Distinct_other same_item (λ row. row.name) (item_to_orm i) t unused h.names;
  })

  -- A save over the row `x`, under its name or one that no row has.
  over-Keeps :
      (x : ItemRow)
      → find? (λ row. row.id === i.id) t ≡ some x
      → (i.name ≡ x.name) ⊎ (find? (λ row. row.name === i.name) t ≡ none)
      → Keeps (save_item orm now i t)
  unfolding same_item item_to_orm
  over-Keeps x found free = saved-Keeps (record {
    rows =
        upsert-All IsListed same_item (item_to_orm i) t h.rows (item_to_orm-IsListed i valid name);
    ids =
        upsert-Distinct same_item (λ row. row.id) (item_to_orm i) t x found
          ((===_iff x.id i.id).0 (find?-holds (λ row. row.id === i.id) t x found)) h.ids;
    names = elim free [
      | inl same ↦
          upsert-Distinct same_item (λ row. row.name) (item_to_orm i) t x found (sym same) h.names
      | inr unused ↦
          upsert-Distinct_other same_item (λ row. row.name) (item_to_orm i) t unused h.names
    ];
  })

still_valid :
    (x : ItemRow) (at : ℕ)
    → validate (as_item x) ≡ ok tt
    → validate (deactivate at (as_item x)) ≡ ok tt
unfolding validate deactivate
still_valid x at v = v

get_or_trimmed :
    (o : Option Text) (n : Text) → trim n ≡ n → trim (get_or (trimmed o) n) ≡ get_or (trimmed o) n
get_or_trimmed none n h = h
get_or_trimmed (some s) n h = trim-trim s

module _ (orm : ItemOrm) (now : ItemReadings) (t : ItemTable) (h : IsCatalog t) where
  -- What a look-up that answers says of the table.
  abbrev Looked : (ItemRow → Bool) → Result (Option Item) → Type 0
  Looked p (err f) = Unit
  Looked p (ok none) = find? p t ≡ none
  Looked p (ok (some i)) = (x : ItemRow) × (find? p t ≡ some x) × (i ≡ as_item x)

  item_of-Looked :
      (p : ItemRow → Bool) (r : Result (Option ItemRow))
      → orm.find_one p t ≡ r
      → Looked p (item_of now r)
  item_of-Looked p (err f) e = tt
  item_of-Looked p (ok none) e = sym (orm.find_one_lem p t none e)
  item_of-Looked p (ok (some row)) e =
      let found = sym (orm.find_one_lem p t (some row) e) in
      let read = item_to_domain_lem now row (find?-All IsListed p t row h.rows found) in
      subst (λ r. Looked p (Errors.◌>>=◌ r (λ i. ok (some i)))) (sym read) (row, found, refl)

  -- A step that follows a look-up.
  Looked-Keeps :
      (p : ItemRow → Bool) (f : Option Item → Action ItemTable Item)
      → ((o : Option Item) → Looked p (ok o) → Keeps (f o t))
      → Keeps ((lift (item_of now (orm.find_one p t)) >>= f) t)
  Looked-Keeps p f k = follow (item_of now (orm.find_one p t)) (item_of-Looked p _ refl)
    where
      follow : (r : Result (Option Item)) → Looked p r → Keeps ((lift r >>= f) t)
      follow (err g) l = h
      follow (ok o) l = k o l

  create_unless-Keeps :
      (dto : CreateItem) (o : Option Item)
      → find? (λ row. row.id === now.fresh_id) t ≡ none
      → Looked (λ row. row.name === trim (trim dto.name)) (ok o)
      → Keeps (create_unless orm now dto o t)
  unfolding create_unless
  create_unless-Keeps dto (some existing) fresh l = h
  create_unless-Keeps dto none fresh l = made (create_item now (new_props dto)) refl
    where
      made :
          (r : Result Item)
          → create_item now (new_props dto) ≡ r
          → Keeps ((lift r >>= save_item orm now) t)
      made (err f) e = h
      made (ok i) e =
          let (valid, same) = create_item_valid now (new_props dto) i e in
          let named : i.name ≡ trim dto.name = ap (λ x. x.name) same in
          new-Keeps orm now i t h valid (subst (λ n. trim n ≡ n) (sym named) (trim-trim dto.name))
            (subst (λ k. find? (λ row. row.id === k) t ≡ none) (sym (ap (λ x. x.id) same)) fresh)
            (subst (λ n. find? (λ row. row.name === n) t ≡ none) (trim-trim dto.name ∙ sym named) l)

  pub create-Keeps :
      (dto : CreateItem)
      → find? (λ row. row.id === now.fresh_id) t ≡ none
      → Keeps (create orm now dto t)
  unfolding create find_named
  create-Keeps dto fresh =
      Looked-Keeps (λ row. row.name === trim (trim dto.name)) (create_unless orm now dto)
        (λ o l. create_unless-Keeps dto o fresh l)

  -- An item of the row `x`, changed and saved.
  module _ (at : ℕ) (x : ItemRow) (id : Text)
      (found : find? (λ row. row.id === id) t ≡ some x) where
    abbrev own : find? (λ row. row.id === x.id) t ≡ some x
    own =
        subst (λ k. find? (λ row. row.id === k) t ≡ some x)
          (sym ((===_iff x.id id).0 (find?-holds (λ row. row.id === id) t x found))) found

    listed : IsListed x
    listed = find?-All IsListed (λ row. row.id === id) t x h.rows found

    deleted-Keeps : Keeps (save_item orm now (deactivate at (as_item x)) t)
    unfolding deactivate
    deleted-Keeps =
        over-Keeps orm now (deactivate at (as_item x)) t h (still_valid x at listed.valid)
          listed.name x own (inl refl)

    -- The name that the update sets is the row's, or trimmed and free.
    updated-Keeps :
        (dto : UpdateItemProps)
        → ((get_or (trimmed dto.name) x.name ≡ x.name)
            ⊎ (find? (λ row. row.name === get_or (trimmed dto.name) x.name) t ≡ none))
        → Keeps (save_updated orm now at (trimmed_props dto) (as_item x) t)
    unfolding save_updated
    updated-Keeps dto free = after (update_item (trimmed_props dto) at (as_item x)) refl
      where
        after :
            (r : Result (Unit {0}) × Item)
            → update_item (trimmed_props dto) at (as_item x) ≡ r
            → Keeps (store_updated orm now r t)
        after (err f, i) e = h
        after (ok done, i) e =
            let (valid, same, named) =
              update_item_valid (trimmed_props dto) at (as_item x) i listed.valid e in
            over-Keeps orm now i t h valid
              (subst (λ n. trim n ≡ n) (sym named) (get_or_trimmed dto.name x.name listed.name)) x
              (subst (λ k. find? (λ row. row.id === k) t ≡ some x) (sym same) own)
              (elim free [
                | inl e ↦ inl (named ∙ e)
                | inr u ↦ inr (subst (λ n. find? (λ row. row.name === n) t ≡ none) (sym named) u)
              ])

    blank_unchanged :
        (dto : UpdateItemProps) (s : Text)
        → dto.name ≡ some s
        → is_empty (trim s) ≡ true
        → (save_updated orm now at (trimmed_props dto) (as_item x) t).1 ≡ t
    unfolding save_updated update_item validate_name
    blank_unchanged dto s e b = ground (arith, trim-trim s)

    free_name :
        (dto : UpdateItemProps) (s : Text)
        → dto.name ≡ some s
        → ((trim s ≡ x.name) ⊎ (find? (λ row. row.name === trim s) t ≡ none))
        → Keeps (save_updated orm now at (trimmed_props dto) (as_item x) t)
    free_name dto s e free = updated-Keeps dto (
        subst
          (λ o.
            (get_or (trimmed o) x.name ≡ x.name)
            ⊎ (find? (λ row. row.name === get_or (trimmed o) x.name) t ≡ none))
          (sym e) free)

    update_unless-Keeps :
        (dto : UpdateItemProps) (s : Text) (o : Option Item)
        → dto.name ≡ some s
        → Looked (λ row. row.name === trim (trim s)) (ok o)
        → Keeps (update_unless orm now at dto (trim s) (as_item x) o t)
    unfolding update_unless
    update_unless-Keeps dto s (some existing) e l = h
    update_unless-Keeps dto s none e l =
        free_name dto s e
          (inr (subst (λ n. find? (λ row. row.name === n) t ≡ none) (trim-trim s) l))

    checked-Keeps :
        (dto : UpdateItemProps) (s : Text)
        → dto.name ≡ some s
        → Keeps (update_named orm now at dto (as_item x) (some (trim s)) t)
    unfolding update_named find_named
    checked-Keeps dto s e = elim (Bool-cases (is_empty (trim s))) [
      | inl blank ↦
          rw (blank, update_named) (subst IsCatalog (sym (blank_unchanged dto s e blank)) h)
      | inr filled ↦ elim (Bool-cases (trim s === x.name)) [
        | inl same ↦
            rw (filled, same, update_named)
              (free_name dto s e (inl ((===_iff (trim s) x.name).0 same)))
        | inr other ↦
            rw (filled, other, update_named)
              (Looked-Keeps (λ row. row.name === trim (trim s))
                (update_unless orm now at dto (trim s) (as_item x))
                (λ o l. update_unless-Keeps dto s o e l))
      ]
    ]

    named-Keeps :
        (dto : UpdateItemProps) (o : Option Text)
        → dto.name ≡ o
        → Keeps (update_named orm now at dto (as_item x) (trimmed o) t)
    unfolding update_named
    named-Keeps dto none e = updated-Keeps dto (inl (ap (λ o. get_or (trimmed o) x.name) e))
    named-Keeps dto (some s) e = checked-Keeps dto s e

  update_found-Keeps :
      (at : ℕ) (id : Text) (dto : UpdateItemProps) (o : Option Item)
      → Looked (λ row. row.id === id) (ok o)
      → Keeps (update_found orm now at id dto o t)
  unfolding update_found
  update_found-Keeps at id dto none l = h
  update_found-Keeps at id dto (some i) (x, found, e) =
      subst (λ j. Keeps (update_named orm now at dto j (trimmed dto.name) t)) (sym e)
        (named-Keeps at x id found dto dto.name refl)

  pub update-Keeps :
      (at : ℕ) (id : Text) (dto : UpdateItemProps) → Keeps (update orm now at id dto t)
  unfolding update find_item
  update-Keeps at id dto =
      Looked-Keeps (λ row. row.id === id) (update_found orm now at id dto)
        (update_found-Keeps at id dto)

  delete_found-Keeps :
      (at : ℕ) (id : Text) (o : Option Item)
      → Looked (λ row. row.id === id) (ok o)
      → Keeps (delete_found orm now at id o t)
  unfolding delete_found
  delete_found-Keeps at id none l = h
  delete_found-Keeps at id (some i) (x, found, e) =
      subst (λ j. Keeps (save_item orm now (deactivate at j) t)) (sym e)
        (deleted-Keeps at x id found)

  pub delete-Keeps : (at : ℕ) (id : Text) → Keeps (delete orm now at id t)
  unfolding delete find_item
  delete-Keeps at id =
      Looked-Keeps (λ row. row.id === id) (delete_found orm now at id) (delete_found-Keeps at id)

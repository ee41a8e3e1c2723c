-- ===== src/Parts/Codes.antt =====
-- The table of parts through each operation of PartService.
use workshop_service.Base.{
  ◌≡◌, refl, Bool, true, ◌&&◌, Option, none, some, List, get_or, arith, sym,
}
use mathlib.Core.Path.{subst}
use workshop_service.Text.{Text, trim, to_upper_case, ◌===◌}
use workshop_service.Text.Laws.{===_iff, ===-sym}
use workshop_service.Errors.{Result, ok, err}
use workshop_service.Errors.Action.{Action, lift, ◌>>=◌}
use workshop_service.Persistence.{find?}
use workshop_service.Persistence.Tables.{
  find?-own, upsert-Distinct_other, Distinct, find?-All, find?-holds, upsert-All, upsert-Distinct,
}
use workshop_service.Part.{Part, PartProps, PartReadings, create_part, create_code, validate}
use workshop_service.Part.Code.{create_code_normal, create_code_again}
use workshop_service.Inventory.{
  PartRow, Inventory, Database, Moments, part_to_orm, same_part, save_part,
}
use workshop_service.Inventory.Rows.{
  as_part, as_part?, as_part-part_to_orm, IsAcceptedPart, ArePartsReadable, DatabaseAnswers,
  find_part_lem, save_part_lem, part_of_found,
}
use workshop_service.Reserving.{on_part}
use workshop_service.Parts.{
  find_part_coded, CreatePart, new_props, normalized_code, create_unless, create, change_found,
  change_part,
}
use workshop_service.Parts.Rows.{find?-none_mono, Apart, upsert-Apart, upsert-Apart_other}
use workshop_service.Parts.Changes.{IsSafe}

-- Two active rows with one code.
unfoldable pub clash : PartRow → PartRow → Bool
clash a b = (a.active && b.active) && a.code === b.code

clash-sym : (a b : PartRow) → clash a b ≡ clash b a
unfolding clash
clash-sym a b = ground (arith, ===-sym a.code b.code)

-- Rows that can be read back, no two with the same id, and no two active ones with the same code.
pub record IsStore (t : List PartRow) : Type 0 where
  pub readable : ArePartsReadable t
  pub ids : Distinct (λ row. row.id) t
  pub codes : Apart clash t

abbrev pub Keeps : Result Part × Inventory → Type 0
Keeps r = IsStore r.1.parts

create_part_valid :
    (now : PartReadings) (props : PartProps) (p : Part)
    → create_part now props ≡ ok p
    → (create_code props.code ≡ ok p.code)
      × (validate p ≡ ok tt)
      × (p.id ≡ get_or props.id now.fresh_id)
unfolding create_part
create_part_valid now props p h = ground arith

clash_coded :
    (p : Part) (code : Text)
    → p.code ≡ code
    → (y : PartRow) → clash y (part_to_orm p) ≡ true
    → (y.code === code && y.active) ≡ true
unfolding clash part_to_orm
clash_coded p code e y h = ground (arith, e)

live_found :
    (id : Text) (x : PartRow) (t : List PartRow)
    → find? (λ row. row.id === id && row.active) t ≡ some x
    → x.active ≡ true
live_found id x t found = ground (arith, find?-holds (λ row. row.id === id && row.active) t x found)

module _ (db : Database) (up : DatabaseAnswers db) (now : Moments) (w : Inventory)
    (h : IsStore w.parts) where
  -- A part saved over the row `x`, which is active.
  over-Keeps :
      (p : Part) (x : PartRow)
      → IsAcceptedPart p
      → find? (λ row. row.id === p.id) w.parts ≡ some x
      → p.code ≡ x.code
      → x.active ≡ true
      → Keeps (save_part db now p w)
  unfolding same_part part_to_orm clash
  over-Keeps p x fit found code live = subst Keeps (sym (save_part_lem db up now p w fit)) (record {
    readable =
        upsert-All (λ row. IsAcceptedPart (as_part row)) same_part (part_to_orm p) w.parts
          h.readable (subst IsAcceptedPart (sym (as_part-part_to_orm p)) fit);
    ids =
        upsert-Distinct same_part (λ row. row.id) (part_to_orm p) w.parts x found
          ((===_iff x.id p.id).0 (find?-holds (λ row. row.id === p.id) w.parts x found)) h.ids;
    codes =
        upsert-Apart clash clash-sym same_part (part_to_orm p) w.parts x found
          (λ y e. ground (arith, code, live)) h.codes;
  })

  change_found-Keeps :
      (id : Text) (m : Action Part (Unit {0})) (o : Option PartRow)
      → IsSafe m
      → find? (λ row. row.id === id && row.active) w.parts ≡ o
      → Keeps (change_found db now id m (as_part? o) w)
  unfolding change_found
  change_found-Keeps id m none safe found = h
  change_found-Keeps id m (some x) safe found = changed (m (as_part x)) refl
    where
      changed :
          (r : Result (Unit {0}) × Part)
          → m (as_part x) ≡ r
          → Keeps ((on_part (λ _. r) (as_part x) >>= save_part db now) w)
      changed (err f, p) e = h
      changed (ok done, p) e =
          let fit =
            find?-All (λ row. IsAcceptedPart (as_part row)) (λ row. row.id === id && row.active)
              w.parts x h.readable found in
          let (good, same, code) = safe (as_part x) p fit e in
          let own =
            find?-own (λ row. row.id) (λ row. row.id === id && row.active) x w.parts h.ids found in
          over-Keeps p x good
            (subst (λ k. find? (λ row. row.id === k) w.parts ≡ some x) (sym same) own) code
            (live_found id x w.parts found)

  pub change_part-Keeps :
      (id : Text) (m : Action Part (Unit {0})) → IsSafe m → Keeps (change_part db now id m w)
  unfolding change_part
  change_part-Keeps id m safe =
      subst (λ y. Keeps (((λ _. y) >>= change_found db now id m) w))
        (sym (find_part_lem db up now id w h.readable))
        (change_found-Keeps id m (find? (λ row. row.id === id && row.active) w.parts) safe refl)

  -- A part that was created from a request whose code no active part has.
  new-Keeps :
      (dto : CreatePart) (p : Part)
      → (create_code (normalized_code dto) ≡ ok p.code)
        × (validate p ≡ ok tt)
        × (p.id ≡ now.part.fresh_id)
      → find? (λ row. row.id === now.part.fresh_id) w.parts ≡ none
      → find? (λ row. row.code === to_upper_case (trim (normalized_code dto)) && row.active) w.parts
        ≡ none
      → Keeps (save_part db now p w)
  unfolding part_to_orm
  new-Keeps dto p (made, valid, new) fresh unused =
      let fit : IsAcceptedPart p = record {
        code = create_code_again (normalized_code dto) p.code made;
        valid = valid;
      } in
      let code = create_code_normal (normalized_code dto) p.code made in
      subst Keeps (sym (save_part_lem db up now p w fit)) (record {
        readable =
            upsert-All (λ row. IsAcceptedPart (as_part row)) same_part (part_to_orm p) w.parts
              h.readable (subst IsAcceptedPart (sym (as_part-part_to_orm p)) fit);
        ids =
            upsert-Distinct_other same_part (λ row. row.id) (part_to_orm p) w.parts
              (subst (λ k. find? (λ row. row.id === k) w.parts ≡ none) (sym new) fresh) h.ids;
        codes =
            upsert-Apart_other clash clash-sym same_part (part_to_orm p) w.parts
              (find?-none_mono
                (λ row. row.code === to_upper_case (trim (normalized_code dto)) && row.active)
                (λ y. clash y (part_to_orm p)) w.parts (clash_coded p _ code) unused)
              h.codes;
      })

  created-Keeps :
      (dto : CreatePart) (o : Option PartRow)
      → find? (λ row. row.id === now.part.fresh_id) w.parts ≡ none
      → find? (λ row. row.code === to_upper_case (trim (normalized_code dto)) && row.active) w.parts
        ≡ o
      → Keeps (create_unless db now dto (as_part? o) w)
  unfolding create_unless
  created-Keeps dto (some x) fresh found = h
  created-Keeps dto none fresh unused = made (create_part now.part (new_props dto)) refl
    where
      made :
          (r : Result Part)
          → create_part now.part (new_props dto) ≡ r
          → Keeps ((lift r >>= save_part db now) w)
      made (err f) e = h
      made (ok p) e = new-Keeps dto p (create_part_valid now.part (new_props dto) p e) fresh unused

  find_coded_lem :
      (code : Text)
      → find_part_coded db now code w ≡ (
        ok (as_part? (find? (λ row. row.code === to_upper_case (trim code) && row.active) w.parts)),
        w,
      )
  unfolding find_part_coded
  find_coded_lem code =
      let p : PartRow → Bool = λ row. row.code === to_upper_case (trim code) && row.active in
      rw (up.parts.finds, find_part_coded)
        (rw (part_of_found now.part w.parts p (find? p w.parts) h.readable refl))

  pub create-Keeps :
      (dto : CreatePart)
      → find? (λ row. row.id === now.part.fresh_id) w.parts ≡ none
      → Keeps (create db now dto w)
  unfolding create
  create-Keeps dto fresh =
      subst (λ y. Keeps (((λ _. y) >>= create_unless db now dto) w))
        (sym (find_coded_lem (normalized_code dto)))
        (created-Keeps dto
          (find? (λ row. row.code === to_upper_case (trim (normalized_code dto)) && row.active)
            w.parts)
          fresh refl)

-- ===== src/Parts/Requests.antt =====
-- The table of parts through the requests of PartService.
use workshop_service.Base.{◌≡◌, none, [], sym}
use mathlib.Core.Path.{subst}
use workshop_service.Number.{Number}
use workshop_service.Text.{Text, ◌===◌}
use workshop_service.Errors.Action.{Action}
use workshop_service.Persistence.{find?}
use workshop_service.Part.{Part}
use workshop_service.Part.Methods.{UpdatePartProps}
use workshop_service.Part.Stock.{Movement}
use workshop_service.Inventory.{Inventory, Database, Moments}
use workshop_service.Inventory.Rows.{DatabaseAnswers}
use workshop_service.Parts.{CreatePart, create, update, delete, move_stock, normalized_props}
use workshop_service.Parts.Changes.{deactivate-IsSafe, update-IsSafe, move-IsSafe}
use workshop_service.Parts.Codes.{IsStore, create-Keeps, change_part-Keeps}

-- The requests of the service that may write.
pub data Request : Type 0 where
  creates : CreatePart → Request
  updates : Text → UpdatePartProps → Request
  deletes : Text → Request
  moves : Text → Movement → Number → Request

unfoldable pub serve : Database → Moments → Request → Action Inventory Part
unfolding create update delete move_stock
serve db now (creates dto) = create db now dto
serve db now (updates id dto) = update db now id dto
serve db now (deletes id) = delete db now id
serve db now (moves id m quantity) = move_stock db now id m quantity

-- The tables that requests lead to where there was no part, each with a new identifier and on a
-- database that answers.
pub data Served : Inventory → Type 0 where
  nothing : {w : Inventory} → w.parts ≡ [] → Served w
  served :
      {w : Inventory} (db : Database) (now : Moments) (r : Request)
      → DatabaseAnswers db
      → Served w
      → find? (λ row. row.id === now.part.fresh_id) w.parts ≡ none
      → Served (serve db now r w).1

serve-IsStore :
    (db : Database) (up : DatabaseAnswers db) (now : Moments) (r : Request) (w : Inventory)
    → IsStore w.parts
    → find? (λ row. row.id === now.part.fresh_id) w.parts ≡ none
    → IsStore (serve db now r w).1.parts
unfolding serve update delete move_stock
serve-IsStore db up now (creates dto) w h fresh = create-Keeps db up now w h dto fresh
serve-IsStore db up now (updates id dto) w h fresh =
    change_part-Keeps db up now w h id _ (update-IsSafe (normalized_props dto) now.at)
serve-IsStore db up now (deletes id) w h fresh =
    change_part-Keeps db up now w h id _ (deactivate-IsSafe now.at)
serve-IsStore db up now (moves id m quantity) w h fresh =
    change_part-Keeps db up now w h id _ (move-IsSafe m quantity now.at)

-- Where there was no part, every sequence of requests to the part service, returned or thrown,
-- each with a fresh identifier and on a database that answers, leads to parts that can be read
-- back, of which no two have the same id and no two active ones the same code.
pub Served-IsStore : {w : Inventory} → Served w → IsStore w.parts
Served-IsStore (nothing e) = subst IsStore (sym e) (record { readable = tt; ids = tt; codes = tt })
Served-IsStore (served {w} db now r up before fresh) =
    serve-IsStore db up now r w (Served-IsStore before) fresh

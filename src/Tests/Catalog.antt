-- ===== src/Tests/Catalog.antt =====
-- The service catalog: the theorems at concrete runs.
use workshop_service.Base.{refl, none, []}
use workshop_service.Number.{number}
use workshop_service.Text.{text}
use workshop_service.Persistence.{find?}
use workshop_service.Catalog.{ItemReadings}
use workshop_service.Catalog.Service.{ItemTable, ItemOrm, same_item, CreateItem}
use workshop_service.Catalog.Names.{IsCatalog}
use workshop_service.Catalog.Requests.{nothing, served, creates, serve, Served-IsCatalog}
use workshop_service.Tests.{answering}

abbrev items : ItemOrm
items = answering same_item

abbrev readings : ItemReadings
readings = record { fresh_id = text "i-1"; created_now = 3; updated_now = 3 }

abbrev alignment : CreateItem
alignment = record {
  name = text " Wheel alignment ";
  description = none;
  price = number 120;
  estimated_minutes = number 90;
}

abbrev one_item : ItemTable
one_item = (serve items readings 3 (creates alignment) []).1

Served-IsCatalog_example : IsCatalog one_item
unfolding find?
Served-IsCatalog_example =
    Served-IsCatalog (served items readings 3 (creates alignment) nothing refl)

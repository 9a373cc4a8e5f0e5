-- ===== src/Http/Export/Imported.antt =====
-- internal/http/server.go: the file of the inventory, given to the import.
use mgp.Base.{
  ℕ, ◌+◌, ◌≡◌, refl, true, Char, String, Option, some, List, [], ◌∷◌, map, All, Float, ok, arith,
}
use mgp.Base.Splits.{lacks}
use mgp.Base.Text.{trim_space, to_lower}
use mgp.Masterdata.{InventoryItem}
use mgp.Http.Csv.Reads.{IsPlainRow, rows_of, write_rows-read_rows}
use mgp.Http.Master.Import.{import_rows, read_items}
use mgp.Http.Export.{inventory_header, inventory_fields, inventory_file}

-- An item as the import sees it: the key and the status are not read.
abbrev pub imported : InventoryItem → InventoryItem
imported item = record item { id = ""; status = "" }

-- No field holds a carriage return, and the quantity is a number.
abbrev pub IsPortable : (String → Option Float) → InventoryItem → Type 0
IsPortable parse_float item =
    All (λ s. lacks b'\r' s ≡ true) (inventory_fields item)
    × ((quantity : Float) × (parse_float (trim_space item.quantity) ≡ some quantity))

header-lacks : All (λ s. lacks b'\r' s ≡ true) inventory_header
header-lacks = (refl, (refl, (refl, (refl, (refl, (refl, (refl, (refl, (refl, (refl, tt))))))))))

module _ (parse_float : String → Option Float) where
  import_rows-items :
      (items : List InventoryItem) (number : ℕ)
      → All (IsPortable parse_float) items
      → import_rows parse_float 10 number (rows_of (map inventory_fields items))
        ≡ ok (map imported items)
  unfolding import_rows
  import_rows-items [] number h = refl
  import_rows-items (item ∷ items) number h =
      let (quantity, parsed) = h.0.1 in rw (parsed, import_rows-items items (number + 1) h.1) refl

  rows-plain :
      (items : List InventoryItem)
      → All (IsPortable parse_float) items
      → All IsPlainRow (map inventory_fields items)
  rows-plain [] h = tt
  rows-plain (item ∷ items) h = ((omega arith, h.0.0), rows-plain items h.1)

  -- The export of items whose fields hold no carriage return and whose quantities are numbers is read
  -- by the import as the same items, but for their keys and statuses.
  pub inventory_file-read_items :
      (lower : Char → Char) (items : List InventoryItem)
      → All (IsPortable parse_float) items
      → read_items lower parse_float (inventory_file items) ≡ ok (map imported items)
  unfolding read_items inventory_file to_lower trim_space import_rows
  inventory_file-read_items lower items h =
      rw
        (
          write_rows-read_rows (inventory_header ∷ map inventory_fields items)
              ((omega arith, header-lacks), rows-plain items h),
          import_rows-items items 2 h,
        )
        refl

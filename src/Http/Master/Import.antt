-- ===== src/Http/Master/Import.antt =====
-- internal/http/server.go: the items of a file of comma-separated values.
use Prim.Native.String.{◌++◌}
use mgp.Base.{
  ℕ, ◌+◌, Bool, not, ◌&&◌, ◌||◌, Char, String, Option, List, [], ◌∷◌, ◌==◌, nat_equality,
  text_equality, ltb, leb, length, if◌then◌else◌, Float, message, Result, ok, err,
}
use mgp.Base.Text.{trim_space, to_lower}
use mgp.Base.Decimal.{decimal}
use mgp.Masterdata.{InventoryItem}
use mgp.Http.Forms.{◌>>=◌, or_message, value_at}
use mgp.Http.Csv.{Rows, read_rows}

abbrev header_error : String
header_error = "CSV header must start with item_code,item_name"

abbrev pub row_error : ℕ → String
row_error number = "invalid CSV row " ++ decimal number

abbrev pub quantity_error : ℕ → String
quantity_error number = "invalid quantity on CSV row " ++ decimal number

abbrev pub is_header : (Char → Char) → List String → Bool
is_header lower header =
    leb 6 (length header)
    && to_lower lower (trim_space (value_at header 0)) == "item_code"
    && to_lower lower (trim_space (value_at header 1)) == "item_name"

abbrev pub is_long : List String → Bool
is_long row = leb 9 (length row)

abbrev pub quantity_of : List String → String
quantity_of row = if is_long row then value_at row 6 else value_at row 4

-- The item of a row of at least nine fields, and of a shorter one.
abbrev pub long_item : List String → InventoryItem
long_item row = record {
  id = "";
  code = value_at row 0;
  name = value_at row 1;
  category = value_at row 2;
  serial_no = value_at row 3;
  batch_no = value_at row 4;
  unit = value_at row 5;
  holder = value_at row 7;
  description = value_at row 8;
  status = "";
  quantity = value_at row 6;
}

abbrev pub short_item : List String → InventoryItem
short_item row = record {
  id = "";
  code = value_at row 0;
  name = value_at row 1;
  category = value_at row 2;
  serial_no = "";
  batch_no = "";
  unit = value_at row 3;
  holder = value_at row 5;
  description = "";
  status = "";
  quantity = value_at row 4;
}

abbrev pub item_of_fields : List String → InventoryItem
item_of_fields row = if is_long row then long_item row else short_item row

-- The checks of one row; the reader wants as many fields as the header has.
abbrev pub check_row : (String → Option Float) → ℕ → ℕ → List String → Result InventoryItem
check_row parse_float width number row =
    if not (length row == width) || ltb (length row) 6
    then err (message (row_error number))
    else (or_message (quantity_error number) (parse_float (trim_space (quantity_of row))) >>= λ _.
        ok (item_of_fields row))

-- The loop over the rows behind the header.
unfoldable pub import_rows : (String → Option Float) → ℕ → ℕ → Rows → Result (List InventoryItem)
import_rows parse_float width number Rows.done = ok []
import_rows parse_float width number Rows.broken = err (message (row_error number))
import_rows parse_float width number (Rows.next row rows) = do
  item ← check_row parse_float width number row
  items ← import_rows parse_float width (number + 1) rows
  ok (item ∷ items)

abbrev pub import_table :
    (Char → Char) → (String → Option Float) → Rows → Result (List InventoryItem)
unfolding import_rows
import_table lower parse_float (Rows.next header rows) =
    if is_header lower header
    then import_rows parse_float (length header) 2 rows
    else err (message header_error)
import_table lower parse_float _ = err (message header_error)

-- The items of a file, or the error of the first row that has one.
unfoldable pub read_items :
    (Char → Char) → (String → Option Float) → String → Result (List InventoryItem)
read_items lower parse_float content = import_table lower parse_float (read_rows content)

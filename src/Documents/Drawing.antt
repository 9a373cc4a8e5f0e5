-- ===== src/Documents/Drawing.antt =====
-- internal/documents/service.go: what the PDF of a pass shows, as calls of fpdf.
use Prim.Native.String.{◌++◌}
use mgp.Base.{ℕ, Bool, true, false, String, List, [], ◌∷◌, pos, negsuc}
use mgp.Base.Decimal.{decimal_ℤ}
use mgp.Pdf.{PdfCall}
use mgp.Gatepass.Detail.{PassDetail, PassItem}

-- The mark of a draft, in front of the calls that follow.
abbrev pub draft_mark : Bool → List PdfCall → List PdfCall
draft_mark false after = after
draft_mark true after =
    PdfCall.set_text_color 190 190 190
    ∷ PdfCall.set_font "Arial" "B" 38
    ∷ PdfCall.transform_begin
    ∷ PdfCall.transform_rotate 35 105 150
    ∷ PdfCall.text 35 150 "DRAFT PREVIEW"
    ∷ PdfCall.transform_end
    ∷ PdfCall.set_text_color 0 0 0
    ∷ after

abbrev pub fields : PassDetail → List (String × String)
fields d =
    ("Status", d.status)
    ∷ ("Type", d.pass_type)
    ∷ ("Pass date", d.pass_date)
    ∷ ("Directorate", d.directorate)
    ∷ ("Project", d.project)
    ∷ ("Inventory", d.inventory_no ++ (" / " ++ d.inventory_holder))
    ∷ ("Consignee", d.consignee)
    ∷ ("Address", d.consignee_address)
    ∷ ("Reference", d.reference_no)
    ∷ ("Packages", decimal_ℤ d.packages)
    ∷ ("Purpose", d.purpose)
    ∷ ("Authority", d.authority)
    ∷ ("Vehicle", d.vehicle_no)
    ∷ ("Carrier", d.carrier_name ++ (" / " ++ d.carrier_designation))
    ∷ ("Expected return", d.expected_return_date)
    ∷ ("Actual return", d.actual_return_date)
    ∷ ("Remarks", d.remarks)
    ∷ []

-- The loop over the fields, in front of the calls that follow.
pub draw_fields : List (String × String) → List PdfCall → List PdfCall
draw_fields [] after = after
draw_fields ((name, value) ∷ others) after =
    PdfCall.set_font "Arial" "B" 10
    ∷ PdfCall.cell_format 42 7 name "" 0 "L" false
    ∷ PdfCall.set_font "Arial" "" 10
    ∷ PdfCall.multi_cell 0 7 value "" "L" false
    ∷ draw_fields others after

-- The columns of the table of items: a width and a title.
abbrev pub columns : List (ℕ × String)
columns =
    (24, "Code")
    ∷ (53, "Item")
    ∷ (28, "Serial / batch")
    ∷ (28, "Category")
    ∷ (18, "U/M")
    ∷ (20, "Qty")
    ∷ []

pub draw_header : List (ℕ × String) → List PdfCall → List PdfCall
draw_header [] after = after
draw_header ((width, title) ∷ others) after =
    PdfCall.set_fill_color 228 242 242
    ∷ PdfCall.cell_format width 7 title "1" 0 "C" true
    ∷ draw_header others after

abbrev pub cells : PassItem → List (ℕ × String)
cells item =
    (24, item.code)
    ∷ (53, item.name)
    ∷ (28, item.serial_no ++ (" / " ++ item.batch_no))
    ∷ (28, item.category)
    ∷ (18, item.unit)
    ∷ (20, item.quantity)
    ∷ []

pub draw_cells : List (ℕ × String) → List PdfCall → List PdfCall
draw_cells [] after = after
draw_cells ((width, value) ∷ others) after =
    PdfCall.cell_format width 7 value "1" 0 "L" false ∷ draw_cells others after

pub draw_items : List PassItem → List PdfCall → List PdfCall
unfolding draw_cells
draw_items [] after = after
draw_items (item ∷ items) after =
    draw_cells (cells item) (PdfCall.ln (negsuc 0) ∷ draw_items items after)

abbrev pub approval_record : PassDetail → String
approval_record d =
    "Internal electronic approval record. Created by "
    ++ (d.created_by
        ++ (". Approved by "
            ++ (d.approved_by
                ++ (". Security officer "
                    ++ (d.security_officer ++ (". Returned by " ++ (d.returned_by ++ ".")))))))

abbrev pub closing : PassDetail → List PdfCall
closing d =
    PdfCall.ln (pos 5)
    ∷ PdfCall.set_font "Arial" "I" 9
    ∷ PdfCall.multi_cell 0 6 (approval_record d) "" "L" false
    ∷ []

abbrev pub items_table : PassDetail → List PdfCall
unfolding draw_header draw_items
items_table d =
    PdfCall.ln (pos 4)
    ∷ PdfCall.set_font "Arial" "B" 11
    ∷ PdfCall.cell_format 0 8 "Material lines" "B" 1 "L" false
    ∷ draw_header columns
        (PdfCall.ln (negsuc 0) ∷ PdfCall.set_font "Arial" "" 8 ∷ draw_items d.items (closing d))

abbrev pub heading : PassDetail → List PdfCall
unfolding draw_fields
heading d =
    PdfCall.set_font "Arial" "B" 18
    ∷ PdfCall.cell_format 0 12 "MATERIAL GATE PASS" "" 1 "L" false
    ∷ PdfCall.set_font "Arial" "B" 13
    ∷ PdfCall.cell_format 0 9 d.pass_no "" 1 "L" false
    ∷ PdfCall.ln (pos 4)
    ∷ PdfCall.set_font "Arial" "" 10
    ∷ draw_fields (fields d) (items_table d)

-- The calls that draw the document.
unfoldable pub drawing : PassDetail → Bool → List PdfCall
drawing d draft =
    PdfCall.create "P" "mm" "A4" ""
    ∷ PdfCall.set_title ("Material Gate Pass " ++ d.pass_no)
    ∷ PdfCall.set_author "MGP Control Room"
    ∷ PdfCall.add_page
    ∷ draft_mark draft (heading d)

-- ===== src/Pdf.antt =====
-- The calls of the package github.com/go-pdf/fpdf that internal/documents/service.go makes, as
-- values. What the package draws for them is a field of `Platform`.
use mgp.Base.{ℕ, Bool, String, ℤ}

pub data PdfCall : Type 0 where
  create : String → String → String → String → PdfCall
  set_title : String → PdfCall
  set_author : String → PdfCall
  add_page : PdfCall
  set_text_color : ℕ → ℕ → ℕ → PdfCall
  set_fill_color : ℕ → ℕ → ℕ → PdfCall
  set_font : String → String → ℕ → PdfCall
  transform_begin transform_end : PdfCall
  transform_rotate : ℕ → ℕ → ℕ → PdfCall
  text : ℕ → ℕ → String → PdfCall
  cell_format : ℕ → ℕ → String → String → ℕ → String → Bool → PdfCall
  multi_cell : ℕ → ℕ → String → String → String → Bool → PdfCall
  ln : ℤ → PdfCall

-- ===== src/Documents/Filed.antt =====
-- internal/documents/service.go: what becomes of a file that is there.
use mgp.Base.{
  ◌≡◌, refl, ◌+◌, ap, subst, Bool, true, false, not, Bool-cases, inl, inr, String, Option, none,
  some, ◌==◌, nat_equality, text_equality, List, [], ◌∷◌, any, find, discard, Option-cases, eq_iff,
  Result, ok, err, arith,
}
use mgp.Rbac.{Actor}
use mgp.Database.{
  World, File, M, continue, ◌>>=◌, ◌>>◌, require, make_directory, statement, disk, is_file,
  write_file, file_exists,
}
use mgp.Gatepass.Detail.{PassDetail}
use mgp.Base.Text.{is_blank}
use mgp.Documents.Drawing.{drawing}
use mgp.Database.{pure}
use mgp.Documents.{document_type, file_name, file_document, draw_document}
use mgp.Database.Tables.{Db}
use mgp.Documents.{output, keep_or_write, generate_pass_pdf, upsert_document}

-- The file that is at a path.
abbrev pub file_at : String → World → Option File
file_at path w = find (is_file path) w.files

any-find : (q : File → Bool) (files : List File) → any q files ≡ false → find q files ≡ none
any-find q [] e = refl
any-find q (f ∷ files) e = elim (Bool-cases (q f)) [
  | inl yes_q ↦ let d = rw yes_q at e in cc
  | inr no_q ↦ rw no_q (any-find q files (rw no_q at e))
]

any-discard : (q : File → Bool) (files : List File) → any q files ≡ false → discard q files ≡ files
any-discard q [] e = refl
any-discard q (f ∷ files) e = elim (Bool-cases (q f)) [
  | inl yes_q ↦ let d = rw yes_q at e in cc
  | inr no_q ↦ rw no_q (ap (λ fs. f ∷ fs) (any-discard q files (rw no_q at e)))
]

module _ (path : String) (file : File) where
  -- A call that leaves the file where it was.
  abbrev Keeps : {A : Type 0} → M A → Type 0
  Keeps m = (w : World) → file_at path w ≡ some file → file_at path (m w).1 ≡ some file

  continue-file_at :
      {A B : Type 0} (f : A → M B)
      → ((a : A) → Keeps (f a))
      → (r : Result A × World) → file_at path r.1 ≡ some file
      → file_at path (continue r f).1 ≡ some file
  continue-file_at f hf (ok a, w) h = hf a w h
  continue-file_at f hf (err e, w) h = h

  bind-Keeps :
      {A B : Type 0} (m : M A) (f : A → M B) → Keeps m → ((a : A) → Keeps (f a)) → Keeps (m >>= f)
  bind-Keeps m f hm hf w h = continue-file_at f hf (m w) (hm w h)

  require-Keeps : (test : Bool) (text : String) → Keeps (require test text)
  require-Keeps true text w h = h
  require-Keeps false text w h = h

  output-Keeps : (r : Result String) → Keeps (output r)
  output-Keeps (ok content) w h = h
  output-Keeps (err e) w h = h

  make_directory-Keeps : (directory : String) → Keeps (make_directory directory)
  unfolding disk
  make_directory-Keeps directory w h = ground arith

  statement-Keeps : {A : Type 0} (run : World → Result (A × Db)) → Keeps (statement run)
  unfolding statement
  statement-Keeps run w h = ground arith

  -- A file that is there is none of those that are not.
  other-path :
      (p : String) (files : List File)
      → any (is_file p) files ≡ false
      → find (is_file path) files ≡ some file
      → (p == path) ≡ false
  other-path p files e h = elim (Bool-cases (p == path)) [
    | inl same ↦
        let q = subst (λ p. any (is_file p) files ≡ false) ((eq_iff p path).0 same) e in
        let missing = any-find (is_file path) files q in cc
    | inr other ↦ other
  ]

  write-Keeps :
      (p content : String) (w : World)
      → any (is_file p) w.files ≡ false
      → file_at path w ≡ some file
      → file_at path (write_file p content w).1 ≡ some file
  unfolding disk
  write-Keeps p content w e h = elim (Option-cases (w.disk_fault w.disk_calls)) [
    | inl calm ↦ rw (calm, any-discard (is_file p) w.files e, other-path p w.files e h, h) refl
    | inr (text, fault) ↦ rw fault h
  ]

  -- The file is looked for, and written only where it is missing.
  file_exists-Keeps :
      (p content : String) (rest : M (String × String))
      → Keeps rest
      → Keeps (file_exists p >>= λ exists. keep_or_write p content exists >> rest)
  unfolding disk
  file_exists-Keeps p content rest hr w h =
      let asked = record w { disk_calls = w.disk_calls + 1 } in
      elim (Option-cases (w.disk_fault w.disk_calls)) [
        | inl calm ↦ elim (Bool-cases (any (is_file p) w.files)) [
          | inl there ↦ rw (calm, there) (hr asked h)
          | inr missing ↦
              rw (calm, missing)
                (continue-file_at (λ _. rest) (λ _. hr) (write_file p content asked)
                  (write-Keeps p content asked missing h))
        ]
        | inr (text, fault) ↦ rw fault h
      ]

  file_document-Keeps :
      (p content pass_no : String) (actor : Actor) (draft : Bool) (sha256 : String)
      → Keeps (file_document p content pass_no actor draft sha256)
  file_document-Keeps p content pass_no actor draft sha256 =
      let upsert : World → Result (Unit {0} × Db) =
        λ w. upsert_document (document_type draft) p sha256 actor.id pass_no w in
      file_exists-Keeps p content (statement upsert >> pure (p, sha256))
        (bind-Keeps (statement upsert) (λ _. pure (p, sha256)) (statement-Keeps upsert) λ _ w h. h)

  draw_document-Keeps :
      (p : String) (detail : PassDetail) (actor : Actor) (draft : Bool)
      → Keeps (draw_document p detail actor draft)
  draw_document-Keeps p detail actor draft w h =
      bind-Keeps (output (w.render_pdf w.now (drawing detail draft)))
        (λ content v. file_document p content detail.pass_no actor draft (v.file_digest content) v)
        (output-Keeps (w.render_pdf w.now (drawing detail draft)))
        (λ content v.
          file_document-Keeps p content detail.pass_no actor draft (v.file_digest content) v)
        w h

  placed-Keeps :
      (directory : String) (detail : PassDetail) (actor : Actor) (draft : Bool)
      → Keeps (
          make_directory directory >> λ w.
          draw_document
            (w.join_path directory (file_name detail.pass_no draft))
            detail
            actor
            draft
            w)
  placed-Keeps directory detail actor draft =
      bind-Keeps (make_directory directory)
        (λ _ w.
          draw_document (w.join_path directory (file_name detail.pass_no draft)) detail actor draft
            w)
        (make_directory-Keeps directory)
        λ _ w.
          draw_document-Keeps (w.join_path directory (file_name detail.pass_no draft)) detail actor
            draft w

-- Printing a pass never changes a file that is there, whatever pass, user, kind of document, faults
-- of the driver and of the operating system: the first document that was stored for a number stays.
pub generate_pass_pdf-file_at :
    (root : String) (detail : PassDetail) (actor : Actor) (draft : Bool) (w : World) (path : String)
    (file : File)
    → file_at path w ≡ some file
    → file_at path (generate_pass_pdf root detail actor draft w).1 ≡ some file
unfolding generate_pass_pdf
generate_pass_pdf-file_at root detail actor draft w path file h =
    bind-Keeps path file (require (not (is_blank detail.pass_no)) "pass number is required")
      (λ _ w.
        (make_directory (w.join_path root "gate-passes") >> λ v.
        draw_document
          (v.join_path (w.join_path root "gate-passes") (file_name detail.pass_no draft)) detail
          actor draft v)
          w)
      (require-Keeps path file (not (is_blank detail.pass_no)) "pass number is required")
      (λ _ w. placed-Keeps path file (w.join_path root "gate-passes") detail actor draft w) w h

-- ===== src/Furrent/Saving.antt =====
-- src/furrent.cpp, PieceTask::save. The files are a state that io::write_bytes, a parameter, changes;
-- it says whether it wrote.
mod Examples
use furrent.Prelude.{
  ℕ, ◌+◌, ◌≡◌, refl, sym, ap, ◌∙◌, List, [], ◌∷◌, ◌++◌, Bool, true, false, some, get_elem?, inl,
  inr, Bool-cases, subst, Exec, returns, undefined,
}
use furrent.Torrent.{Subpiece}

abbrev pub Write : Type 0 → Type 0
Write W = List ℕ → List ℕ → ℕ → W → W × Bool

-- descriptor.folder_name + '/' + subpiece.filepath
abbrev pub path_in : List ℕ → Subpiece → List ℕ
path_in folder_name subpiece = folder_name ++ b'/' ∷ subpiece.filepath

-- The loop of PieceTask::save, with the content of the piece.
unfoldable pub save : {W : Type 0} → Write W → List ℕ → List ℕ → List Subpiece → W → W × Bool
save write_bytes folder_name content [] files = (files, true)
save write_bytes folder_name content (subpiece ∷ subpieces) files =
    let (files', valid) =
      write_bytes (path_in folder_name subpiece) content subpiece.file_offset files in
    elim valid [
      | true ↦ save write_bytes folder_name content subpieces files'
      | false ↦ (files', false)
    ]

-- PieceTask::save: behind its loop the log names the first subpiece, which a piece without subpieces
-- does not have.
unfoldable pub save_piece :
    {W : Type 0} → Write W → List ℕ → List ℕ → List Subpiece → W → Exec Bool × W
save_piece write_bytes folder_name content [] files = (undefined, files)
save_piece write_bytes folder_name content (subpiece ∷ subpieces) files =
    let (files', valid) = save write_bytes folder_name content (subpiece ∷ subpieces) files in
    (returns valid, files')

-- Each subpiece's file has been written to, in their order and without an error, with the content and
-- at the subpiece's offset, which leads from the files to the files.
pub data IsWritten {W : Type 0} (write_bytes : Write W) (folder_name content : List ℕ)
    : List Subpiece → W → W → Type 0 where
  nothing : {files : W} → IsWritten write_bytes folder_name content [] files files
  wrote :
      {files files' files'' : W} {subpieces : List Subpiece} (subpiece : Subpiece)
      → write_bytes (folder_name ++ b'/' ∷ subpiece.filepath) content subpiece.file_offset files
        ≡ (files', true)
      → IsWritten write_bytes folder_name content subpieces files' files''
      → IsWritten write_bytes folder_name content (subpiece ∷ subpieces) files files''

module _ {W : Type 0} (write_bytes : Write W) where
  save-goes_on :
      (folder_name content : List ℕ) (subpiece : Subpiece) (subpieces : List Subpiece) (files : W)
      → (write_bytes (path_in folder_name subpiece) content subpiece.file_offset files).1 ≡ true
      → save write_bytes folder_name content (subpiece ∷ subpieces) files
        ≡ save write_bytes folder_name content subpieces
            (write_bytes (path_in folder_name subpiece) content subpiece.file_offset files).0
  unfolding save
  save-goes_on folder_name content subpiece subpieces files e = rw (e, save) refl

  save-stops :
      (folder_name content : List ℕ) (subpiece : Subpiece) (subpieces : List Subpiece) (files : W)
      → (write_bytes (path_in folder_name subpiece) content subpiece.file_offset files).1 ≡ false
      → (save write_bytes folder_name content (subpiece ∷ subpieces) files).1 ≡ false
  unfolding save
  save-stops folder_name content subpiece subpieces files e = rw (e, save) refl

  save-IsWritten :
      (folder_name content : List ℕ) (subpieces : List Subpiece) (files : W)
      → (save write_bytes folder_name content subpieces files).1 ≡ true
      → IsWritten write_bytes folder_name content subpieces files
          (save write_bytes folder_name content subpieces files).0
  save-IsWritten folder_name content [] files e = unfold save in nothing
  save-IsWritten folder_name content (subpiece ∷ subpieces) files e =
      let first = write_bytes (path_in folder_name subpiece) content subpiece.file_offset files in
      elim (Bool-cases first.1) [
        | inl w ↦
            let rest = save-goes_on folder_name content subpiece subpieces files w in
            subst
              (λ (r : W × Bool).
                IsWritten write_bytes folder_name content (subpiece ∷ subpieces) files r.0)
              (sym rest)
              (wrote subpiece (ap (λ (b : Bool). (first.0, b)) w) (
                save-IsWritten folder_name content subpieces first.0
                  (ap (λ (r : W × Bool). r.1) (sym rest) ∙ e)))
        | inr failed ↦ absurd (
            true_not_false (sym e ∙ save-stops folder_name content subpiece subpieces files failed))
      ]
    where
      true_not_false : true ≡ false → ⊥
      true_not_false c = cc

  pub save_piece-IsWritten :
      (folder_name content : List ℕ) (subpieces : List Subpiece) (files files' : W)
      → save_piece write_bytes folder_name content subpieces files ≡ (returns true, files')
      → IsWritten write_bytes folder_name content subpieces files files'
  unfolding save_piece
  save_piece-IsWritten folder_name content [] files files' e =
      absurd (let f : undefined ≡ returns true = ap (λ p. p.0) e in cc)
  save_piece-IsWritten folder_name content (subpiece ∷ subpieces) files files' e =
      let result = save write_bytes folder_name content (subpiece ∷ subpieces) files in
      let valid : returns result.1 ≡ returns true = ap (λ p. p.0) e in
      let all : result.1 ≡ true = cc in
      let after : result.0 ≡ files' = ap (λ p. p.1) e in
      subst (IsWritten write_bytes folder_name content (subpiece ∷ subpieces) files) after
        (save-IsWritten folder_name content (subpiece ∷ subpieces) files all)

module _ {W : Type 0} (write_bytes : Write W) (byte_at : W → List ℕ → ℕ → ℕ) where
  -- A write that succeeds puts its bytes at its offset.
  abbrev pub Writes : Type 0
  Writes =
      (path bytes : List ℕ) (offset : ℕ) (files : W) (k b : ℕ)
      → (write_bytes path bytes offset files).1 ≡ true
      → get_elem? bytes k ≡ some b
      → byte_at (write_bytes path bytes offset files).0 path (offset + k) ≡ b

  -- Where every subpiece of a piece is saved, the file of the last one holds the content of the whole
  -- piece from its first byte on at the subpiece's offset, whatever stands before that subpiece, if
  -- a write that succeeds puts its bytes at its offset.
  pub save-last :
      (folder_name content : List ℕ) (subpieces : List Subpiece) (last : Subpiece) (files : W)
      (k b : ℕ)
      → Writes
      → (save write_bytes folder_name content (subpieces ++ last ∷ []) files).1 ≡ true
      → get_elem? content k ≡ some b
      → byte_at
          (save write_bytes folder_name content (subpieces ++ last ∷ []) files).0
          (path_in folder_name last)
          (last.file_offset + k)
        ≡ b
  save-last folder_name content [] last files k b law saved e =
      elim (Bool-cases (write_bytes (path_in folder_name last) content last.file_offset files).1) [
        | inl written ↦ rw (save-goes_on write_bytes folder_name content last [] files written) (
            unfold save in
            law (path_in folder_name last) content last.file_offset files k b written e)
        | inr failed ↦
            absurd
              (clash (sym saved ∙ save-stops write_bytes folder_name content last [] files failed))
      ]
    where
      clash : true ≡ false → ⊥
      clash c = cc
  save-last folder_name content (subpiece ∷ subpieces) last files k b law saved e =
      elim (Bool-cases
        (write_bytes (path_in folder_name subpiece) content subpiece.file_offset files).1) [
          | inl written ↦
              let step =
                save-goes_on write_bytes folder_name content subpiece (subpieces ++ last ∷ []) files
                  written in
              ap (λ w. byte_at w.0 (path_in folder_name last) (last.file_offset + k)) step
              ∙ save-last folder_name content subpieces last _ k b law
                  (ap (λ w. w.1) (sym step) ∙ saved) e
          | inr failed ↦ absurd (
              clash (
                sym saved
                ∙ save-stops write_bytes folder_name content subpiece (subpieces ++ last ∷ []) files
                    failed))
        ]
    where
      clash : true ≡ false → ⊥
      clash c = cc

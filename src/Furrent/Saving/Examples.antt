-- ===== src/Furrent/Saving/Examples.antt =====
-- The theorem on PieceTask::save of src/furrent.cpp for files that are functions.
use furrent.Prelude.{
  ℕ, ◌+◌, ◌-◌, ◌≡◌, leb, refl, ap, ap₂, ◌∙◌, List, [], ◌∷◌, Bool, true, false, none, some,
  get_elem?, arith, Option,
}
use furrent.Torrent.{Subpiece}
use furrent.Furrent.Saving.{Write, Writes, save, save-last}

-- One file, of which all paths are names.
abbrev patched : Option ℕ → Bool → ℕ → ℕ
patched none inside old = old
patched (some b) true old = b
patched (some b) false old = old

abbrev write_over : Write (ℕ → ℕ)
write_over path bytes offset files =
    ((λ i. patched (get_elem? bytes (i - offset)) (leb offset i) (files i)), true)

abbrev byte_of : (ℕ → ℕ) → List ℕ → ℕ → ℕ
byte_of files path i = files i

write_over-Writes : Writes write_over byte_of
write_over-Writes path bytes offset files k b written e =
    let place : offset + k - offset ≡ k = omega arith in
    let inside : leb offset (offset + k) ≡ true = ground arith in
    ap₂ (λ o l. patched o l (files (offset + k))) (ap (get_elem? bytes) place ∙ e) inside

-- The piece has the bytes 5, 6 and 7: one of the file a, and two at the beginning of the file b.
abbrev in_a : Subpiece
in_a = record { filepath = b'a' ∷ []; file_offset = 4; len = 1 }

abbrev in_b : Subpiece
in_b = record { filepath = b'b' ∷ []; file_offset = 0; len = 2 }

abbrev zeros : ℕ → ℕ
zeros i = 0

save-last_example :
    byte_of
      (save write_over (b'd' ∷ []) (5 ∷ 6 ∷ 7 ∷ []) (in_a ∷ in_b ∷ []) zeros).0
      (b'd' ∷ b'/' ∷ b'b' ∷ [])
      0
    ≡ 5
save-last_example =
    save-last write_over byte_of (b'd' ∷ []) (5 ∷ 6 ∷ 7 ∷ []) (in_a ∷ []) in_b zeros 0 5
      write_over-Writes saved refl
  where
    saved : (save write_over (b'd' ∷ []) (5 ∷ 6 ∷ 7 ∷ []) (in_a ∷ in_b ∷ []) zeros).1 ≡ true
    saved = unfold save in refl

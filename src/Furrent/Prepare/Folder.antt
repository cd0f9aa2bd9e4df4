-- ===== src/Furrent/Prepare/Folder.antt =====
-- src/furrent.cpp, Furrent::prepare_torrent_files: the folder that a torrent gets, and what becomes of it.
use furrent.Prelude.{
  ℕ, zero, suc, ◌+◌, ◌≤◌, ◌<◌, ◌≡◌, refl, ap, ◌∙◌, ltb, List, ◌∷◌, ◌++◌, true, false, length, none,
  ok, returns, arith,
}
use furrent.Torrent.{join}
use furrent.Torrent.Reading.{TorrentFile, ReadFile}
use furrent.Platform.{FileSystem, exists, touch, remove, create_directories}
use furrent.Furrent.Prepare.{
  max_copy_attempts, copy_suffix, slash, is_there, back, free_path, create_files, fill_folder,
  prepare_torrent_files,
}

-- The name of the k-th copy.
unfoldable pub copy_of : List ℕ → ℕ → List ℕ
copy_of path zero = path
copy_of path (suc k) = copy_of (path ++ copy_suffix) k

module _ {W : Type 0} (fs : FileSystem W) where
  -- Every name in front of the k-th copy is taken, and the k-th one is not, unless it is the last.
  abbrev pub IsFirstFree : ℕ → List ℕ → ℕ → W → Type 0
  IsFirstFree left path k w =
      (k ≤ left)
      × ((j : ℕ) → j < k → exists fs (copy_of path j) w ≡ ok true)
      × (k < left → is_there (exists fs (copy_of path k) w) ≡ false)

  free_path-first :
      (left attempts k : ℕ) (path : List ℕ) (w : W)
      → IsFirstFree left path k w
      → free_path fs left attempts path w ≡ (copy_of path k, attempts + k)
  unfolding free_path copy_of
  free_path-first zero attempts zero path w (h, taken, free) =
      ap (λ (n : ℕ). (path, n)) (omega arith)
  free_path-first zero attempts (suc k) path w (h, taken, free) = absurd (omega (arith, h))
  free_path-first (suc left) attempts zero path w (h, taken, free) =
      rw (free (omega arith)) (ap (λ (n : ℕ). (path, n)) (omega arith))
  free_path-first (suc left) attempts (suc k) path w (h, taken, free) = rw (taken 0 (omega arith)) (
      free_path-first left (attempts + 1) k (path ++ copy_suffix) w
        (omega (arith, h), (λ j l. taken (suc j) (omega (arith, l))), λ l. free (omega (arith, l)))
      ∙ ap (λ (n : ℕ). (copy_of (path ++ copy_suffix) k, n)) (omega arith))

  -- The torrent goes to the first of the eleven names that is not taken, and to the eleventh when all of
  -- the others are: the test for too many attempts never refuses.
  pub prepare-first_free :
      (download_folder : List ℕ) (descriptor : TorrentFile) (k : ℕ) (w : W)
      → IsFirstFree max_copy_attempts (slash download_folder descriptor.name) k w
      → prepare_torrent_files fs download_folder descriptor w
        ≡ fill_folder fs descriptor.files
            (create_directories fs (copy_of (slash download_folder descriptor.name) k) false w)
  unfolding prepare_torrent_files
  prepare-first_free download_folder descriptor k w f =
      let found =
        free_path-first max_copy_attempts 0 k (slash download_folder descriptor.name) w f in
      let few : ltb 10 (0 + k) ≡ false = ground (arith, f.0) in rw (found, few) refl

  create_files-present :
      (folder name dir : List ℕ) (file : ReadFile) (files : List ReadFile) (w v : W)
      → create_directories fs (slash folder (join (length file.filepath) 0 file.filepath)) true w
        ≡ (ok dir, v)
      → back file.filepath ≡ returns name
      → exists fs (slash dir name) v ≡ ok true
      → create_files fs folder (file ∷ files) w ≡ (returns false, v)
  unfolding create_files touch
  create_files-present folder name dir file files w v d b e = rw (d, b, e) refl

  -- If all eleven names are taken and the folder of the last one has the torrent's first file, then
  -- that folder, which was there before the call, is removed, and the torrent is refused.
  pub prepare-taken :
      (download_folder : List ℕ) (descriptor : TorrentFile) (folder name dir : List ℕ)
      (file : ReadFile) (files : List ReadFile) (u v w : W)
      → ((j : ℕ)
          → j ≤ 10
          → exists fs (copy_of (slash download_folder descriptor.name) j) w ≡ ok true)
      → create_directories fs (copy_of (slash download_folder descriptor.name) 10) false w
        ≡ (ok folder, u)
      → descriptor.files ≡ file ∷ files
      → create_directories fs (slash folder (join (length file.filepath) 0 file.filepath)) true u
        ≡ (ok dir, v)
      → back file.filepath ≡ returns name
      → exists fs (slash dir name) v ≡ ok true
      → prepare_torrent_files fs download_folder descriptor w
        ≡ (returns none, (remove fs folder v).1)
  prepare-taken download_folder descriptor folder name dir file files u v w taken made fs_e d b e =
      let start =
        prepare-first_free download_folder descriptor 10 w
          (omega arith, (λ j l. taken j (omega (arith, l))), λ l. absurd (omega (arith, l))) in
      let loop = create_files-present folder name dir file files u v d b e in
      start ∙ rw (made, fs_e, loop) refl

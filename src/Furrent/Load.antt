-- ===== src/Furrent/Load.antt =====
-- src/furrent.cpp, the part of Furrent::add_torrent in front of the announcement: a .torrent file is read,
-- parsed and described, and its files are created. SHA-1 is the parameter `calc`.
mod Examples
use furrent.Prelude.{
  ℕ, ◌+◌, ◌-◌, ◌*◌, ◌/◌, ◌<◌, ◌^◌, ◌≡◌, refl, sym, ap, ◌∙◌, ◌==◌, List, [], Bool, true, length,
  Option, none, some, Result, ok, error, Exec, returns, throws, undefined, out_of_fuel, arith,
  if-true,
}
use furrent.Prelude.Int.{ℤ, pos}
use furrent.Bencode.Value.{BencodeValue, string, to_string}
use furrent.Bencode.Parser.{BencodeParserError, parse}
use furrent.Bencode.Steps.{IsWellFormed}
use furrent.Bencode.RoundTrip.{parse-to_string}
use furrent.Hash.{count}
use furrent.Torrent.{File}
use furrent.Torrent.Reading.{TorrentFile, read}
use furrent.Torrent.Cover.{total}
use furrent.Torrent.Metainfo.{tree, described, Fits, read-tree}
use furrent.Platform.{IoError, FileSystem, load_file_text}
use furrent.Furrent.Prepare.{Error, loading_torrent_failed, prepare_torrent_files}

module _ {W : Type 0} (fs : FileSystem W) (calc : List ℕ → List ℕ) (download_folder : List ℕ) where
  abbrev prepared : TorrentFile → Exec (Option (List ℕ)) × W → Exec (Result TorrentFile Error) × W
  prepared d (returns (some folder), w) = (returns (ok (record d { folder_name = folder })), w)
  prepared d (returns none, w) = (returns (error loading_torrent_failed), w)
  prepared d (throws x, w) = (throws x, w)
  prepared d (undefined, w) = (undefined, w)
  prepared d (out_of_fuel, w) = (out_of_fuel, w)

  abbrev with_descriptor : Exec TorrentFile → W → Exec (Result TorrentFile Error) × W
  with_descriptor (returns d) w = prepared d (prepare_torrent_files fs download_folder d w)
  with_descriptor (throws x) w = (throws x, w)
  with_descriptor undefined w = (undefined, w)
  with_descriptor out_of_fuel w = (out_of_fuel, w)

  abbrev with_tree :
      Exec (Result BencodeValue BencodeParserError) → W → Exec (Result TorrentFile Error) × W
  with_tree (returns (ok btree)) w = with_descriptor (read calc btree) w
  with_tree (returns (error e)) w = (returns (error loading_torrent_failed), w)
  with_tree (throws x) w = (throws x, w)
  with_tree undefined w = (undefined, w)
  with_tree out_of_fuel w = (out_of_fuel, w)

  abbrev with_text : Result (List ℕ) IoError → W → Exec (Result TorrentFile Error) × W
  with_text (ok text) w = with_tree (parse text) w
  with_text (error e) w = (returns (error loading_torrent_failed), w)

  unfoldable pub load_torrent : List ℕ → W → Exec (Result TorrentFile Error) × W
  load_torrent filename w = with_text (load_file_text fs filename w) w

  -- If a file holds the bencoded text of a torrent with several files, whose parts fit their integers,
  -- whose pieces have a positive length and which has a hash for each piece, and if its folder is
  -- prepared, then loading it gives the descriptor that the text describes, with that folder.
  pub load_torrent-tree :
      (url name : List ℕ) (files : List File) (piece_length : ℕ) (hashes : List (List ℕ))
      (filename folder : List ℕ) (w v : W)
      → load_file_text fs filename w
        ≡ ok (to_string (tree url name files (pos piece_length) hashes))
      → IsWellFormed (tree url name files (pos piece_length) hashes)
      → length (to_string (tree url name files (pos piece_length) hashes)) < 2 ^ 63
      → Fits url name files (pos piece_length) hashes
      → 0 < piece_length
      → piece_length < 2 ^ 31
      → total files + piece_length < 2 ^ 63
      → (total files + piece_length - 1) / piece_length ≡ count hashes
      → prepare_torrent_files fs download_folder
          (described url name files (pos piece_length) hashes calc (pos (count hashes)))
          w
        ≡ (returns (some folder), v)
      → load_torrent filename w ≡ (
        returns (
            ok
              (record (described url name files
                (pos piece_length)
                hashes
                calc
                (pos (count hashes))) { folder_name = folder })),
        v,
      )
  unfolding load_torrent
  load_torrent-tree url name files piece_length hashes filename folder w v text well l fits
        some_bytes narrow sum counted prep =
      let parsed =
        parse-to_string (tree url name files (pos piece_length) hashes) well (λ e. absurd (cc)) l in
      let equal : ((total files + piece_length - 1) / piece_length == count hashes) ≡ true =
        ground (arith, counted) in
      let described_as =
        read-tree url name files (pos piece_length) hashes calc piece_length fits refl some_bytes
          narrow sum
        ∙ if-true _ _ equal in
      rw (text, parsed, described_as, prep) refl

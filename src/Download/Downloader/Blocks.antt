-- ===== src/Download/Downloader/Blocks.antt =====
-- src/download/downloader.cpp: the arithmetic of try_download. A piece is asked for in blocks.
pub mod Tiling
pub mod Assembly
use furrent.Prelude.{
  ℕ, ◌+◌, ◌-◌, ◌*◌, ◌/◌, ◌==◌, List, ◌++◌, if◌then◌else◌, leb, length, take, drop, get_elem?, none,
  some, Exec, returns, undefined, ◌>>=◌,
}
use furrent.Prelude.Int.{ℤ, pos, negsuc, eq_ℤ, sub_int64, mul_int64}
use furrent.Torrent.Reading.{TorrentFile}

abbrev pub block_size : ℕ
block_size = 16384

abbrev pub pipeline_size_max : ℕ
pipeline_size_max = 5

abbrev pub unchoke_timeout : ℕ
unchoke_timeout = 15

-- Integer ceil division.
unfoldable pub blocks_total : ℕ → ℕ
blocks_total piece_length = (piece_length + block_size - 1) / block_size

-- The offset and the length of a block.
unfoldable pub block_offset : ℕ → ℕ
block_offset block = block * block_size

unfoldable pub block_length : ℕ → ℕ → ℕ
unfolding blocks_total
block_length piece_length block =
    if block == blocks_total piece_length - 1 then piece_length - block * block_size else block_size

-- `std::copy` into the piece from `begin` on, which writes behind its end where the block is too long.
unfoldable pub copy_block : List ℕ → ℤ → List ℕ → Exec (List ℕ)
copy_block content (negsuc n) block = undefined
copy_block content (pos begin) block =
    if leb (begin + length block) (length content)
    then returns (take begin content ++ (block ++ drop (begin + length block) content))
    else undefined

-- The length of the piece: less if it is the last one.
unfoldable pub piece_length_at : TorrentFile → ℤ → Exec ℤ
piece_length_at torrent index = sub_int64 torrent.pieces_count (pos 1) >>= λ last.
    if eq_ℤ index last
    then (mul_int64 last torrent.piece_length >>= λ before. sub_int64 torrent.length before)
    else returns torrent.piece_length

-- torrent.piece_hashes[task.index]
unfoldable pub hash_at : List (List ℕ) → ℤ → Exec (List ℕ)
hash_at hashes (negsuc n) = undefined
hash_at hashes (pos i) = elim (get_elem? hashes i) [ none ↦ undefined | some hash ↦ returns hash ]

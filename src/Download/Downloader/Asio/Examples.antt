-- ===== src/Download/Downloader/Asio/Examples.antt =====
-- src/download/downloader.cpp over a runtime whose reads take their bytes from a list.
use furrent.Prelude.{
  ℕ, ◌≡◌, refl, inr, List, [], ◌++◌, Bool, true, false, length, take, drop, replicate, take-append,
  drop-append, ok, returns, some, arith,
}
use furrent.Prelude.Int.{ℤ, pos}
use furrent.Download.Socket.{Asio, ErrorCode, run, write, read, read_of, filled, outcome_of}
use furrent.Download.Downloader.{Sockets}
use furrent.Download.Downloader.Asio.{sockets, try_download-over_asio}
use furrent.Download.Downloader.Delivery.{Delivers, holding}
use furrent.Download.Downloader.Transfer.{try_download}
use furrent.Download.Downloader.Transfer.Safety.{IsPiece}
use furrent.Download.Downloader.Transfer.Completion.{try_download-delivered}
use furrent.Download.Downloader.Script.{
  torrent, calc, peer, content, answer, answer_bytes, all_pieces, zero_index, hash, piece_zero,
  fuel, piece_of, answer_of, spelled, has_zero,
}

-- What has arrived, and what is left.
abbrev Stream : Type 0
Stream = List ℕ × List ℕ

abbrev prompt : Asio Stream
prompt = record {
  is_open = λ w. true;
  async_connect = λ ip port w. w;
  async_write = λ bytes w. w;
  async_read = λ n w. (take n w.1, drop n w.1);
  restart = λ w. w;
  run_for = λ t w. w;
  stopped = λ w. true;
  run_all = λ w. w;
  shutdown = λ w. w;
  close = λ w. (false, w);
  ec = λ w. ErrorCode.no_error;
  arrived = λ w. w.0;
}

abbrev net : Sockets Stream
net = sockets prompt (λ w. w) (λ w. 0)

abbrev Left : List ℕ → Stream → Type 0
Left bytes w = w.1 ≡ bytes

net-Delivers : Delivers net Left
unfolding sockets read write run read_of outcome_of filled
net-Delivers = record {
  reads = λ bytes rest t w e. ((bytes, rest), taken bytes rest t w e, refl);
  writes = λ out bytes t w e. (w, refl, e);
}
  where
    taken :
        (bytes rest : List ℕ) (t : ℤ) (w : Stream)
        → w.1 ≡ bytes ++ rest
        → read prompt (pos (length bytes)) t w ≡ (returns (ok bytes), (bytes, rest))
    taken bytes rest t w e =
        rw
          (
            e,
            take-append bytes rest,
            drop-append bytes rest,
            take-append bytes (replicate (length bytes) 0),
          )
          refl

is_open : net.is_open ([], answer_bytes) ≡ true
unfolding sockets
is_open = refl

downloads :
    (choked : Bool) × (w : Stream) × (try_download net torrent calc fuel peer
        (pos zero_index)
        (holding net Left net-Delivers true (some all_pieces) ([], answer_bytes))
      ≡ (returns (ok piece_zero), holding net Left net-Delivers choked (some all_pieces) w))
downloads =
    try_download-delivered net Left net-Delivers torrent calc zero_index content hash fuel peer
      answer answer_bytes true all_pieces ([], answer_bytes) piece_of answer_of (omega arith)
      spelled refl is_open has_zero

try_download-over_asio_example : IsPiece torrent calc (pos 0) piece_zero
try_download-over_asio_example =
    try_download-over_asio prompt (λ w. w) (λ w. 0) torrent calc fuel peer (pos 0)
      (holding net Left net-Delivers true (some all_pieces) ([], answer_bytes))
      (inr (refl, (all_pieces, refl))) piece_zero
      (holding net Left net-Delivers downloads.0 (some all_pieces) downloads.1) downloads.2

-- ===== src/Furrent/Examples.antt =====
-- The theorem on src/furrent.cpp at a concrete run.
use furrent.Prelude.{◌+◌, ◌≤◌, ◌≡◌, refl, List, [], ◌∷◌, Exec, returns}
use furrent.Torrent.{Piece}
use furrent.Policy.{extract, take_out, mutate, mutate_from}
use furrent.Furrent.{
  Furrent, Event, Torrent, TorrentState, error_state, stopped, torrent_of, removes_tasks,
  remove_tasks, loads_state, load_state, stops, stop_torrent, completed, downloading, start, step,
  run, adds, takes, begins, finishes, add_torrent, queue_pieces, take_task, begin_task, finish_task,
  put,
}
use furrent.Furrent.Account.{open_tasks}
use furrent.Furrent.Completion.{completed-all_processed}

-- A torrent of one piece and one peer is added, and its piece processed.
abbrev one_piece : List Piece
one_piece = record { index = 0; subpieces = [] } ∷ []

abbrev whole_run : List Event
whole_run = adds (4 ∷ []) one_piece ∷ takes ∷ begins 0 ∷ finishes 0 0 ∷ []

abbrev one_torrent : Torrent
one_torrent = record {
  state = completed;
  pieces_processed = 1;
  pieces_count = 1;
  peers_score = 2 ∷ [];
}

abbrev begun : Torrent
begun = record { state = downloading; pieces_processed = 0; pieces_count = 1; peers_score = 1 ∷ [] }

abbrev final : Furrent
final = record {
  torrents = put (put (put start.torrents 0 begun) 0 begun) 0 one_torrent;
  tasks = [];
  taken = [];
  in_hand = [];
  stopping = [];
  descriptor_next_uid = 1;
}

whole_run-final : run whole_run start ≡ returns final
unfolding run step add_torrent queue_pieces take_task begin_task finish_task extract take_out
whole_run-final = refl

completed-all_processed_example :
    (1 + open_tasks 0 final ≤ 1)
    × (completed ≡ completed
        → (one_torrent.pieces_processed ≡ one_torrent.pieces_count) × (open_tasks 0 final ≡ 0))
completed-all_processed_example = completed-all_processed whole_run final 0 whole_run-final

-- The torrent is removed while its piece is downloaded: the state is loaded in front of the worker's
-- completion and exchanged behind it, so that the completed torrent ends as a stopped one.
abbrev raced : List Event
raced =
    adds (4 ∷ []) one_piece
    ∷ takes
    ∷ begins 0
    ∷ removes_tasks 0
    ∷ loads_state 0
    ∷ finishes 0 0
    ∷ stops 0
    ∷ []

abbrev state_of_first : Exec Furrent → TorrentState
state_of_first (returns s) = (torrent_of (s.torrents 0)).state
state_of_first _ = error_state

raced-stopped : state_of_first (run raced start) ≡ stopped
unfolding run step add_torrent queue_pieces take_task begin_task finish_task extract take_out
    remove_tasks load_state stop_torrent mutate mutate_from
raced-stopped = refl

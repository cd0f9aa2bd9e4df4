-- ===== src/Furrent.antt =====
-- src/furrent.cpp: the torrents, the queue of their piece tasks, and the workers that take tasks out.
-- A step is what a thread does while it holds a lock; remove_torrent shares its lock, and is two. A worker
-- takes a task, looks at its torrent, and has it in hand while it downloads and saves the piece, which
-- it tries until that completes. The map of the torrents is a function. Torrent::pieces gives as many
-- pieces as the descriptor counts, so a torrent's number of pieces is that of its list.
pub mod Account
pub mod Moves
pub mod Stops
pub mod Completion
pub mod Saving
pub mod Prepare
pub mod Process
pub mod Load
mod Examples
use furrent.Prelude.{
  ℕ, zero, suc, ◌+◌, ◌==◌, List, [], ◌∷◌, ◌++◌, Bool, true, false, ltb, if◌then◌else◌, Option, none,
  some, get_elem?, set, length, Result, ok, error, Exec, returns, ◌>>=◌,
}
use furrent.Torrent.{Piece}
use furrent.Policy.{QueueError, erase, extract, mutate, lifo_policy, insert}

pub data TorrentState : Type 0 where
  loading downloading paused completed stopped error_state : TorrentState

-- What the steps read and write of a Torrent.
pub record Torrent : Type 0 where
  pub state : TorrentState
  pub pieces_processed : ℕ
  pub pieces_count : ℕ
  pub peers_score : List ℕ

pub record PieceTask : Type 0 where
  pub tid : ℕ
  pub piece : Piece

-- A call of remove_torrent that has loaded the state of its torrent.
pub record Stopping : Type 0 where
  pub tid : ℕ
  pub state : TorrentState

pub record Furrent : Type 0 where
  pub torrents : ℕ → Option Torrent
  pub tasks : List PieceTask
  pub taken : List PieceTask
  pub in_hand : List PieceTask
  pub stopping : List Stopping
  pub descriptor_next_uid : ℕ

abbrev pub start : Furrent
start = record {
  torrents = λ tid. none;
  tasks = [];
  taken = [];
  in_hand = [];
  stopping = [];
  descriptor_next_uid = 0;
}

-- Torrent::Torrent(), which operator[] of the map makes for a key that is not there
abbrev pub no_torrent : Torrent
no_torrent = record {
  state = error_state;
  pieces_processed = 0;
  pieces_count = 0;
  peers_score = [];
}

-- _torrents[tid]
abbrev pub torrent_of : Option Torrent → Torrent
torrent_of none = no_torrent
torrent_of (some torrent) = torrent

abbrev pub put : (ℕ → Option Torrent) → ℕ → Torrent → ℕ → Option Torrent
put torrents tid torrent i = if i == tid then some torrent else torrents i

abbrev pub is_paused : TorrentState → Bool
is_paused paused = true
is_paused _ = false

-- Torrent::announce: each peer has the score 1.
abbrev pub scores : {P : Type 0} → List P → List ℕ
scores [] = []
scores (peer ∷ peers) = 1 ∷ scores peers

-- Torrent::atomic_add_peer_score
abbrev pub atomic_add_peer_score : ℕ → List ℕ → List ℕ
atomic_add_peer_score peer_index peers_score = elim (get_elem? peers_score peer_index) [
  | none ↦ peers_score
  | some score ↦ set peers_score peer_index (score + 1)
]

abbrev pub tasks_of : ℕ → List Piece → List PieceTask
tasks_of tid [] = []
tasks_of tid (piece ∷ pieces) = record { tid = tid; piece = piece } ∷ tasks_of tid pieces

-- std::map::try_emplace
abbrev pub emplaced : Option Torrent → Torrent → Torrent
emplaced none torrent = torrent
emplaced (some old) torrent = old

-- The end of Furrent::add_torrent, by the scores of the peers: a torrent without a peer is an error.
unfoldable pub queue_pieces : List ℕ → ℕ → Torrent → List Piece → Furrent → Furrent
queue_pieces [] tid torrent pieces s = record s {
  torrents = put s.torrents tid (record torrent { state = error_state });
}
queue_pieces (score ∷ peers_score) tid torrent pieces s = record s {
  torrents = put s.torrents tid (record torrent { state = downloading });
  tasks = s.tasks ++ tasks_of tid pieces;
}

-- Furrent::add_torrent for a file that is read, with the peers that the tracker announces.
unfoldable pub add_torrent : {P : Type 0} → List P → List Piece → Furrent → Furrent
add_torrent peers pieces s =
    let tid = s.descriptor_next_uid in
    let torrent = emplaced (s.torrents tid) (record {
      state = loading;
      pieces_processed = 0;
      pieces_count = length pieces;
      peers_score = scores peers;
    }) in
    queue_pieces torrent.peers_score tid torrent pieces (record s { descriptor_next_uid = suc tid })

-- The state that remove_torrent leaves, by the one that it has loaded and the one that it finds then.
abbrev pub stopped_state : TorrentState → TorrentState → TorrentState
stopped_state completed state = state
stopped_state error_state state = state
stopped_state _ state = stopped

abbrev pub of_torrent : ℕ → PieceTask → PieceTask × Bool
of_torrent tid task = (task, task.tid == tid)

-- Furrent::remove_torrent: its mutation of the queue, and what it does under the lock of the torrents.
unfoldable pub remove_tasks : ℕ → Furrent → Exec Furrent
remove_tasks tid s =
    mutate (of_torrent tid) s.tasks >>= λ tasks. returns (record s { tasks = tasks })

-- The lock is shared, so that a worker may go on between the load of the state and the exchange.
unfoldable pub load_state : ℕ → Furrent → Furrent
load_state tid s =
    let torrent = torrent_of (s.torrents tid) in
    record s {
      torrents = put s.torrents tid torrent;
      stopping = record { tid = tid; state = torrent.state } ∷ s.stopping;
    }

-- The exchange of the call at a position among those that have loaded a state.
unfoldable pub stop_torrent : ℕ → Furrent → Furrent
stop_torrent i s = elim (get_elem? s.stopping i) [
  | none ↦ s
  | some stop ↦
      let torrent = torrent_of (s.torrents stop.tid) in
      record s {
        stopping = erase s.stopping i;
        torrents =
            put s.torrents stop.tid
              (record torrent { state = stopped_state stop.state torrent.state });
      }
]

-- thread_main: a task is extracted, or the worker waits.
abbrev pub after_extract : Furrent → Result (PieceTask × List PieceTask) QueueError → Exec Furrent
after_extract s (error e) = returns s
after_extract s (ok (task, left)) = returns (record s { tasks = left; taken = task ∷ s.taken })

unfoldable pub take_task : Furrent → Exec Furrent
take_task s = extract lifo_policy s.tasks >>= after_extract s

-- thread_main with a task: that of a paused torrent goes back into the queue.
abbrev pub begin_with : Bool → Furrent → PieceTask → Exec Furrent
begin_with true s task = insert s.tasks task >>= λ tasks. returns (record s { tasks = tasks })
begin_with false s task = returns (record s { in_hand = task ∷ s.in_hand })

-- The task at a position among those taken. The torrent is looked up by operator[].
unfoldable pub begin_task : ℕ → Furrent → Exec Furrent
begin_task i s = elim (get_elem? s.taken i) [
  | none ↦ returns s
  | some task ↦
      let torrent = torrent_of (s.torrents task.tid) in
      begin_with (is_paused torrent.state)
        (record s { taken = erase s.taken i; torrents = put s.torrents task.tid torrent }) task
]

-- What thread_main makes of a torrent when one of its pieces is saved.
abbrev pub piece_done : ℕ → Torrent → Torrent
piece_done peer_index torrent =
    let processed = torrent.pieces_processed + 1 in
    record torrent {
      peers_score = atomic_add_peer_score peer_index torrent.peers_score;
      pieces_processed = processed;
      state = if processed == torrent.pieces_count then completed else torrent.state;
    }

-- thread_main behind the download of the task at a position among those in hand.
unfoldable pub finish_task : ℕ → ℕ → Furrent → Furrent
finish_task i peer_index s = elim (get_elem? s.in_hand i) [
  | none ↦ s
  | some task ↦ record s {
    in_hand = erase s.in_hand i;
    torrents = put s.torrents task.tid (piece_done peer_index (torrent_of (s.torrents task.tid)));
  }
]

pub data Event : Type 0 where
  adds : List ℕ → List Piece → Event
  removes_tasks : ℕ → Event
  loads_state : ℕ → Event
  stops : ℕ → Event
  takes : Event
  begins : ℕ → Event
  finishes : ℕ → ℕ → Event

unfoldable pub step : Event → Furrent → Exec Furrent
step (adds peers pieces) s = returns (add_torrent peers pieces s)
step (removes_tasks tid) s = remove_tasks tid s
step (loads_state tid) s = returns (load_state tid s)
step (stops i) s = returns (stop_torrent i s)
step takes s = take_task s
step (begins i) s = begin_task i s
step (finishes i peer_index) s = returns (finish_task i peer_index s)

unfoldable pub run : List Event → Furrent → Exec Furrent
run [] s = returns s
run (event ∷ events) s = step event s >>= run events

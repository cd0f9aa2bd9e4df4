-- ===== src/Furrent/Stops.antt =====
-- What Furrent::remove_torrent in src/furrent.cpp does to the account of a torrent's pieces.
use furrent.Prelude.{ℕ, ◌≡◌, sym, get_elem?, inl, inr, subst, Option-cases}
use furrent.Furrent.{
  TorrentState, Furrent, torrent_of, put, loading, downloading, paused, completed, stopped,
  error_state, load_state, stop_torrent, stopped_state,
}
use furrent.Furrent.Account.{open_tasks, Balanced, Fresh, Accounted, put-cases}
use furrent.Furrent.Moves.{Everywhere}

stopped_state-completed :
    (loaded state : TorrentState) → stopped_state loaded state ≡ completed → state ≡ completed
stopped_state-completed loading state e = absurd (cc)
stopped_state-completed downloading state e = absurd (cc)
stopped_state-completed paused state e = absurd (cc)
stopped_state-completed completed state e = e
stopped_state-completed stopped state e = absurd (cc)
stopped_state-completed error_state state e = e

-- A torrent with another state, which is not newly completed.
put_state-Accounted :
    (k tid : ℕ) (state : TorrentState) (s : Furrent)
    → (state ≡ completed → (torrent_of (s.torrents k)).state ≡ completed)
    → Everywhere s
    → Accounted
        (record s {
          torrents = put s.torrents k (record (torrent_of (s.torrents k)) { state = state });
        })
        tid
put_state-Accounted k tid state s old h =
    put-cases (λ t. Balanced t (open_tasks tid s) × Fresh s.descriptor_next_uid tid t) s.torrents k
      tid (record (torrent_of (s.torrents k)) { state = state })
      (λ e.
        subst
          (λ i.
            Balanced (record (torrent_of (s.torrents k)) { state = state }) (open_tasks i s)
            × Fresh s.descriptor_next_uid i (torrent_of (s.torrents k)))
          (sym e) (((h k).0.0, λ c. (h k).0.1 (old c)), (h k).1))
      (λ e. h tid)

pub load_state-Everywhere : (k : ℕ) (s : Furrent) → Everywhere s → Everywhere (load_state k s)
unfolding load_state
load_state-Everywhere k s h tid =
    put_state-Accounted k tid (torrent_of (s.torrents k)).state s (λ c. c) h

pub stop_torrent-Everywhere : (i : ℕ) (s : Furrent) → Everywhere s → Everywhere (stop_torrent i s)
unfolding stop_torrent
stop_torrent-Everywhere i s h = elim (Option-cases (get_elem? s.stopping i)) [
  | inl outside ↦ rw (outside, stop_torrent) h
  | inr (stop, inside) ↦
      rw (inside, stop_torrent)
        λ tid.
          let now = (torrent_of (s.torrents stop.tid)).state in
          put_state-Accounted stop.tid tid (stopped_state stop.state now) s
            (stopped_state-completed stop.state now) h
]

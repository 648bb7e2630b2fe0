-- ===== src/Download/Finish.antt =====
-- The whole download: from the prepared file to the last piece, whatever the order in which the
-- goroutines take their steps.
use bit_torrent.Download.Workers.{All-At}
use bit_torrent.Download.Sound.{
  WorkerSound, IsSound, Sound, moves, shorter, longer, write_keeps, after_write, marks, done_waits,
}
use bit_torrent.Download.{
  At, Worker, Download, Step, Reach, Session, downloading, writing, written, skip, take, retire,
  connect, reuse, give_up, receive, cancel, fail, crash, write, write_fails, mark, late, signal,
  done, count, requeue, drop_piece, stop, stop_trying, inject, discover, acquire, dial_fails,
  dialled, give_back, finish, time_out, here, next,
}
use bit_torrent.Pieces.Disk.{write_piece}
use bit_torrent.Pieces.Geometry.{num_pieces, piece_length_at, IsConsistent}
use bit_torrent.Pieces.Torrent.{TorrentInfo}
use bit_torrent.Wire.Bytes.{IsU32}
use bit_torrent.Transfer.Answers.{downloaded_genuine}
use bit_torrent.Transfer.{Event, downloaded, download_piece_from_session}
use bit_torrent.Transfer.Sound.{AreReceivable}
use bit_torrent.Base.{◌≡◌, ◌<◌, ℕ, List, Bool, set, refl, ok}

module _ (sha1 : List ℕ → List ℕ) (t : TorrentInfo) (c : IsConsistent t)
    (u : (i : ℕ) → i < num_pieces t → IsU32 (piece_length_at t i)) where
  receives :
      {file : List ℕ} {completed : List Bool} {queue : List ℕ} {wait : ℕ} (ws : List Worker)
      (k i n : ℕ) (s s' : Session) (events : List Event) (b : List ℕ)
      → IsSound sha1 t file completed queue wait ws
      → At ws k (downloading i n s)
      → AreReceivable events
      → download_piece_from_session sha1 t i s.bitfield s.ut_pex_id s.window events ≡ downloaded b
      → IsSound sha1 t file completed queue wait (set ws k (writing i n s' b))
  receives ws k i n s s' events b sound e r got =
      moves sha1 t ws k _ _ sound e
        (λ h.
          let (len, hash) =
            downloaded_genuine sha1 t i s.bitfield s.ut_pex_id s.window events b (u i h) r got in
          (h, len, hash))
        refl

  writes :
      {completed : List Bool} {queue : List ℕ} {wait : ℕ} (file file' : List ℕ) (ws : List Worker)
      (k i n : ℕ) (s : Session) (b : List ℕ)
      → IsSound sha1 t file completed queue wait ws
      → At ws k (writing i n s b)
      → write_piece file t i b ≡ ok file'
      → IsSound sha1 t file' completed queue wait (set ws k (written i s b))
  writes file file' ws k i n s b sound e wrote =
      let (h, len, hash) = All-At (WorkerSound sha1 t file) ws k _ sound.each e in
      let (size, good, keep) = write_keeps sha1 t i file b file' c h sound.size len hash wrote in
      moves sha1 t ws k _ _ (after_write sha1 t file file' sound size keep) e (λ _. (h, good)) refl

  module _ {Peer : Type 0} where
    -- Whatever goroutine takes the next step.
    pub step-Sound : (d e : Download Peer) → Sound sha1 t d → Step sha1 t d e → Sound sha1 t e
    step-Sound d _ s (skip k i q w at head old) = (shorter sha1 t d.queue q i s head).1
    step-Sound d _ s (take k i q w at head new) =
        let (h, rest) = shorter sha1 t d.queue q i s head in
        moves sha1 t d.workers k _ _ rest at (λ _. h) refl
    step-Sound d _ s (retire k i n w at few many) = moves sha1 t d.workers k _ _ s at (λ h. h) refl
    step-Sound d _ s (connect k i n w r at few head) =
        moves sha1 t d.workers k _ _ s at (λ h. h) refl
    step-Sound d _ s (reuse k i n w at few less) = moves sha1 t d.workers k _ _ s at (λ h. h) refl
    step-Sound d _ s (give_up k i w at) = moves sha1 t d.workers k _ _ s at (λ h. h) refl
    step-Sound d _ s (receive k i n w w' events b at r got key same) =
        receives d.workers k i n w w' events b s at r got
    step-Sound d _ s (cancel k i n w w' events sent at got key same) =
        moves sha1 t d.workers k _ _ s at (λ h. h) refl
    step-Sound d _ s (fail k i n now w events f class sent at got cl) =
        moves sha1 t d.workers k _ _ s at (λ h. h) refl
    step-Sound d _ s (crash k i n w events at got) =
        moves sha1 t d.workers k _ _ s at (λ _. tt) refl
    step-Sound d _ s (write k i n w b file' at wrote) =
        writes d.file file' d.workers k i n w b s at wrote
    step-Sound d _ s (write_fails k i n now w b at) =
        moves sha1 t d.workers k _ _ s at (λ h. h.0) refl
    step-Sound d _ s (mark k i now latency w b at new) =
        marks sha1 t d.completed d.workers k i w _ b s at new
    step-Sound d _ s (late k i latency w b at old) =
        moves sha1 t d.workers k _ _ s at (λ _. tt) refl
    step-Sound d _ s (signal k i w b at) = moves sha1 t d.workers k _ _ s at (λ h. h) refl
    step-Sound d _ s (done k i w b at) = done_waits sha1 t d.workers k i w b s at
    step-Sound d _ s (count k w b at) = moves sha1 t d.workers k _ _ s at (λ h. h) refl
    step-Sound d _ s (requeue k i w at room) =
        let h = All-At (WorkerSound sha1 t d.file) d.workers k _ s.each at in
        moves sha1 t d.workers k _ _ (longer sha1 t i s h) at (λ _. tt) refl
    step-Sound d _ s (drop_piece k i w at over) = moves sha1 t d.workers k _ _ s at (λ _. tt) refl
    step-Sound d _ s (stop k w at over) = moves sha1 t d.workers k _ _ s at (λ h. h) refl
    step-Sound d _ s (stop_trying k i n at over) = moves sha1 t d.workers k _ _ s at (λ _. tt) refl
    step-Sound d _ s (inject i begun h new room) = longer sha1 t i s h
    step-Sound d _ s (discover usable key p) = s
    step-Sound d _ s (acquire now x held ready) = s
    step-Sound d _ s (dial_fails key class now h) = s
    step-Sound d _ s (dialled w h room) = s
    step-Sound d _ s (give_back key h x) = s
    step-Sound d _ s (finish e) = s
    step-Sound d _ s time_out = s

    pub Reach-Sound : (d e : Download Peer) → Sound sha1 t d → Reach sha1 t d e → Sound sha1 t e
    Reach-Sound d _ s here = s
    Reach-Sound d _ s (next {e = e} r step) = step-Sound e _ (Reach-Sound d e s r) step

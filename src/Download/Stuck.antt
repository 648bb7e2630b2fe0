-- ===== src/Download/Stuck.antt =====
-- A state in which the download can only wait for its time to be up: the queue is full, since the
-- endgame offered a missing piece again and again, and every worker gave a piece up and is about to
-- put it back.
use bit_torrent.Download.Workers.{All-At}
use bit_torrent.Download.{
  Worker, Download, Step, Reach, here, next, marked, signalled, idle, trying, downloading, writing,
  written, waited, requeueing, stopped, queue_capacity, skip, take, retire, connect, reuse, give_up,
  receive, cancel, fail, crash, write, write_fails, mark, late, signal, done, count, requeue,
  drop_piece, stop, stop_trying, inject, discover, acquire, dial_fails, dialled, give_back, finish,
  time_out,
}
use bit_torrent.Pieces.Torrent.{TorrentInfo}
use bit_torrent.Base.{
  subst, ◌≡◌, ◌<◌, ℕ, List, true, length, arith, refl, ◌⊎◌, inl, inr, ap, ◌∙◌, sym, All,
}

abbrev pub IsBlocked : Worker → Type 0
IsBlocked (idle s) = ⊥
IsBlocked (trying i n s) = ⊥
IsBlocked (downloading i n s) = ⊥
IsBlocked (writing i n s b) = ⊥
IsBlocked (written i s b) = ⊥
IsBlocked (marked i s b) = ⊥
IsBlocked (signalled i s b) = ⊥
IsBlocked (waited s b) = ⊥
IsBlocked (requeueing i s) = Unit {0}
IsBlocked stopped = ⊥

-- The goroutines have changed nothing that brings a piece nearer.
abbrev pub IsSame : {Peer : Type 0} → Download Peer → Download Peer → Type 0
IsSame d e =
    (e.queue ≡ d.queue) × (e.workers ≡ d.workers) × (e.completed ≡ d.completed) × (e.wait ≡ d.wait)

module _ {Peer : Type 0} (sha1 : List ℕ → List ℕ) (t : TorrentInfo) where
  step-cancelled : (d e : Download Peer) → d.cancelled ≡ true → Step sha1 t d e → e.cancelled ≡ true
  step-cancelled d _ e (skip k i q w at head old) = e
  step-cancelled d _ e (take k i q w at head new) = e
  step-cancelled d _ e (retire k i n w at few many) = e
  step-cancelled d _ e (connect k i n w r at few head) = e
  step-cancelled d _ e (reuse k i n w at few less) = e
  step-cancelled d _ e (give_up k i w at) = e
  step-cancelled d _ e (receive k i n w w' events b at r got key same) = e
  step-cancelled d _ e (cancel k i n w w' events sent at got key same) = e
  step-cancelled d _ e (fail k i n now w events f class sent at got cl) = e
  step-cancelled d _ e (crash k i n w events at got) = e
  step-cancelled d _ e (write k i n w b file' at wrote) = e
  step-cancelled d _ e (write_fails k i n now w b at) = e
  step-cancelled d _ e (mark k i now latency w b at new) = e
  step-cancelled d _ e (late k i latency w b at old) = e
  step-cancelled d _ e (signal k i w b at) = e
  step-cancelled d _ e (done k i w b at) = e
  step-cancelled d _ e (count k w b at) = e
  step-cancelled d _ e (requeue k i w at room) = e
  step-cancelled d _ e (drop_piece k i w at over) = e
  step-cancelled d _ e (stop k w at over) = e
  step-cancelled d _ e (stop_trying k i n at over) = e
  step-cancelled d _ e (inject i begun h new room) = e
  step-cancelled d _ e (discover usable key p) = e
  step-cancelled d _ e (acquire now x held ready) = e
  step-cancelled d _ e (dial_fails key class now h) = e
  step-cancelled d _ e (dialled w h room) = e
  step-cancelled d _ e (give_back key h x) = e
  step-cancelled d _ e (finish z) = refl
  step-cancelled d _ e time_out = refl

  step-IsStuck :
      (d e : Download Peer)
      → length d.queue ≡ queue_capacity t
      → All IsBlocked d.workers
      → 0 < d.wait
      → Step sha1 t d e
      → (e.cancelled ≡ true) ⊎ IsSame d e
  step-IsStuck d _ full blocked waits (skip k i q w at head old) =
      absurd (All-At IsBlocked d.workers k _ blocked at)
  step-IsStuck d _ full blocked waits (take k i q w at head new) =
      absurd (All-At IsBlocked d.workers k _ blocked at)
  step-IsStuck d _ full blocked waits (retire k i n w at few many) =
      absurd (All-At IsBlocked d.workers k _ blocked at)
  step-IsStuck d _ full blocked waits (connect k i n w r at few head) =
      absurd (All-At IsBlocked d.workers k _ blocked at)
  step-IsStuck d _ full blocked waits (reuse k i n w at few less) =
      absurd (All-At IsBlocked d.workers k _ blocked at)
  step-IsStuck d _ full blocked waits (give_up k i w at) =
      absurd (All-At IsBlocked d.workers k _ blocked at)
  step-IsStuck d _ full blocked waits (receive k i n w w' events b at r got key same) =
      absurd (All-At IsBlocked d.workers k _ blocked at)
  step-IsStuck d _ full blocked waits (cancel k i n w w' events sent at got key same) =
      absurd (All-At IsBlocked d.workers k _ blocked at)
  step-IsStuck d _ full blocked waits (fail k i n now w events f class sent at got cl) =
      absurd (All-At IsBlocked d.workers k _ blocked at)
  step-IsStuck d _ full blocked waits (crash k i n w events at got) =
      absurd (All-At IsBlocked d.workers k _ blocked at)
  step-IsStuck d _ full blocked waits (write k i n w b file' at wrote) =
      absurd (All-At IsBlocked d.workers k _ blocked at)
  step-IsStuck d _ full blocked waits (write_fails k i n now w b at) =
      absurd (All-At IsBlocked d.workers k _ blocked at)
  step-IsStuck d _ full blocked waits (mark k i now latency w b at new) =
      absurd (All-At IsBlocked d.workers k _ blocked at)
  step-IsStuck d _ full blocked waits (late k i latency w b at old) =
      absurd (All-At IsBlocked d.workers k _ blocked at)
  step-IsStuck d _ full blocked waits (signal k i w b at) =
      absurd (All-At IsBlocked d.workers k _ blocked at)
  step-IsStuck d _ full blocked waits (done k i w b at) =
      absurd (All-At IsBlocked d.workers k _ blocked at)
  step-IsStuck d _ full blocked waits (count k w b at) =
      absurd (All-At IsBlocked d.workers k _ blocked at)
  step-IsStuck d _ full blocked waits (requeue k i w at room) = absurd (omega arith)
  step-IsStuck d _ full blocked waits (drop_piece k i w at over) = inl over
  step-IsStuck d _ full blocked waits (stop k w at over) =
      absurd (All-At IsBlocked d.workers k _ blocked at)
  step-IsStuck d _ full blocked waits (stop_trying k i n at over) =
      absurd (All-At IsBlocked d.workers k _ blocked at)
  step-IsStuck d _ full blocked waits (inject i begun h new room) = absurd (omega arith)
  step-IsStuck d _ full blocked waits (discover usable key p) = inr (refl, refl, refl, refl)
  step-IsStuck d _ full blocked waits (acquire now x held ready) = inr (refl, refl, refl, refl)
  step-IsStuck d _ full blocked waits (dial_fails key class now h) = inr (refl, refl, refl, refl)
  step-IsStuck d _ full blocked waits (dialled w h room) = inr (refl, refl, refl, refl)
  step-IsStuck d _ full blocked waits (give_back key h over) = inl over
  step-IsStuck d _ full blocked waits (finish e) = absurd (omega arith)
  step-IsStuck d _ full blocked waits time_out = inl refl

  -- Once the queue is full and every worker is about to put a piece back, no run of the goroutines
  -- takes a piece off the queue, moves a worker or marks a piece, before the download is cancelled.
  pub stuck_until_cancelled :
      (d e : Download Peer)
      → length d.queue ≡ queue_capacity t
      → All IsBlocked d.workers
      → 0 < d.wait
      → Reach sha1 t d e
      → (e.cancelled ≡ true) ⊎ IsSame d e
  stuck_until_cancelled d _ full blocked waits here = inr (refl, refl, refl, refl)
  stuck_until_cancelled d _ full blocked waits (next {e = m} {f = e} r step) =
      elim (stuck_until_cancelled d m full blocked waits r) [
        | inl over ↦ inl (step-cancelled m e over step)
        | inr (q, w, c, n) ↦
            elim (step-IsStuck m e (ap length q ∙ full) (subst (All IsBlocked) (sym w) blocked)
              (subst (λ k. 0 < k) (sym n) waits) step) [
                | inl over ↦ inl over
                | inr (q', w', c', n') ↦ inr (q' ∙ q, w' ∙ w, c' ∙ c, n' ∙ n)
              ]
      ]

-- ===== src/Transfer/Answers.antt =====
-- What the transfer of a piece answers, over all its turns.
use bit_torrent.Pieces.Bitfield.{bitfield_has_piece}
use bit_torrent.Pieces.Geometry.{piece_length_at}
use bit_torrent.Transfer.Sound.{HasPexPanic, start-IsSound, AreReceivable, IsSound}
use bit_torrent.Transfer.Turns.{turn-TurnSound, TurnSound}
use bit_torrent.Wire.Bytes.{IsU32}
use bit_torrent.Pieces.Torrent.{TorrentInfo}
use bit_torrent.Base.{
  inl, inr, arith, ltb→lt, ===→eq, subst, get_or, ltb, not, refl, if◌then◌else◌, length, Bool, ◌∷◌,
  [], ◌≡◌, ◌<◌, ℕ, List, ◌===◌, ◌&&◌, false, true,
}
use bit_torrent.Transfer.{
  start, turn, bitfield_has_piece, piece_length_at, download_piece_from_session, Turn, Transfer,
  TorrentInfo, run, Event, verify, Answer, cancelled, send_failure, read_failure, received, going,
  failed, panic, downloaded, refused, panicked, waiting,
}

module _ (sha1 : List ℕ → List ℕ) (hash : List ℕ) (size idx : ℕ) (P : Type 0) where
  abbrev AnswerSound : Answer → Type 0
  AnswerSound (downloaded b) = (length b ≡ size) × (sha1 b ≡ hash)
  AnswerSound (refused f sent) = Unit {0}
  AnswerSound panicked = P
  AnswerSound (waiting t) = IsSound size t × (t.written < size)

  AnswerSound-if :
      (b : Bool) (x y : Answer)
      → (b ≡ true → AnswerSound x)
      → (b ≡ false → AnswerSound y)
      → AnswerSound (if b then x else y)
  AnswerSound-if true x y h k = h refl
  AnswerSound-if false x y h k = k refl

  verify-AnswerSound : (t : Transfer) → IsSound size t → AnswerSound (verify sha1 hash t)
  unfolding verify
  verify-AnswerSound t s =
      AnswerSound-if (not (sha1 t.piece_data === hash)) _ _ (λ _. tt)
        λ e. (s.whole, ===→eq (sha1 t.piece_data) hash (ground arith))

  after-AnswerSound :
      (es : List Event) (u : Turn)
      → ((t : Transfer) → IsSound size t → AnswerSound (run sha1 hash size idx es t))
      → TurnSound P size u
      → AnswerSound (elim u [
        | going t' ↦ run sha1 hash size idx es t'
        | failed f sent ↦ refused f sent
        | panic ↦ panicked
      ])
  after-AnswerSound es (going t) next s = next t s
  after-AnswerSound es (failed f sent) next s = tt
  after-AnswerSound es panic next s = s

  run-AnswerSound :
      (es : List Event) (t : Transfer)
      → IsU32 size
      → AreReceivable es
      → (HasPexPanic es → P)
      → IsSound size t
      → AnswerSound (run sha1 hash size idx es t)
  unfolding run
  run-AnswerSound [] t h r p s =
      AnswerSound-if (ltb t.written size) _ _ (λ e. (s, ltb→lt t.written size e))
        λ _. verify-AnswerSound t s
  run-AnswerSound (cancelled ∷ es) t h r p s =
      AnswerSound-if (ltb t.written size) _ _ (λ _. unfold turn in tt) λ _. verify-AnswerSound t s
  run-AnswerSound (send_failure ∷ es) t h r p s =
      AnswerSound-if (ltb t.written size) _ _ (λ _. unfold turn in tt) λ _. verify-AnswerSound t s
  run-AnswerSound (read_failure ∷ es) t h r p s =
      AnswerSound-if (ltb t.written size) _ _ (λ _. unfold turn in tt) λ _. verify-AnswerSound t s
  run-AnswerSound (received m ∷ es) t h r p s =
      AnswerSound-if (ltb t.written size) _ _
        (λ _.
          after-AnswerSound es (turn size idx (received m) t)
            (λ t' s'. run-AnswerSound es t' h r.1 (λ q. p (inr q)) s')
            (turn-TurnSound P size idx m t h r.0 (λ q. p (inl q)) s))
        λ _. verify-AnswerSound t s

module _ (sha1 : List ℕ → List ℕ) (t : TorrentInfo) (idx : ℕ) where
  download-AnswerSound :
      (bitfield : List ℕ) (ut_pex_id window : ℕ) (events : List Event)
      → IsU32 (piece_length_at t idx)
      → AreReceivable events
      → AnswerSound sha1
          (get_or t.piece_hashes idx [])
          (piece_length_at t idx)
          idx
          (HasPexPanic events)
          (download_piece_from_session sha1 t idx bitfield ut_pex_id window events)
  unfolding download_piece_from_session
  download-AnswerSound bitfield ut_pex_id window events h r =
      AnswerSound-if sha1 (get_or t.piece_hashes idx []) (piece_length_at t idx) idx
        (HasPexPanic events) (ltb 0 (length bitfield) && not (bitfield_has_piece bitfield idx)) _ _
        (λ _. tt)
        λ _.
          run-AnswerSound sha1 (get_or t.piece_hashes idx []) (piece_length_at t idx) idx
            (HasPexPanic events) events (start bitfield ut_pex_id window (piece_length_at t idx)) h
            r (λ q. q) (start-IsSound bitfield ut_pex_id window (piece_length_at t idx))

  -- Whatever a peer sends, a piece that is handed on has the length of that piece of the torrent,
  -- and its hash is the one of the torrent. The messages are within the limit of `ReadMessage`, and
  -- the length of the piece is a uint32.
  pub downloaded_genuine :
      (bitfield : List ℕ) (ut_pex_id window : ℕ) (events : List Event) (b : List ℕ)
      → IsU32 (piece_length_at t idx)
      → AreReceivable events
      → download_piece_from_session sha1 t idx bitfield ut_pex_id window events ≡ downloaded b
      → (length b ≡ piece_length_at t idx) × (sha1 b ≡ get_or t.piece_hashes idx [])
  downloaded_genuine bitfield ut_pex_id window events b h r e =
      subst
        (AnswerSound sha1 (get_or t.piece_hashes idx []) (piece_length_at t idx) idx
          (HasPexPanic events))
        e (download-AnswerSound bitfield ut_pex_id window events h r)

  -- As long as the loop runs, the bytes that were written and those in flight are the ones that were
  -- requested, all of them inside the piece and some of it still to come; at most sixteen blocks are
  -- in flight, none twice. The messages are within the limit of `ReadMessage`, and the length of the
  -- piece is a uint32.
  pub waiting-IsSound :
      (bitfield : List ℕ) (ut_pex_id window : ℕ) (events : List Event) (s : Transfer)
      → IsU32 (piece_length_at t idx)
      → AreReceivable events
      → download_piece_from_session sha1 t idx bitfield ut_pex_id window events ≡ waiting s
      → IsSound (piece_length_at t idx) s × (s.written < piece_length_at t idx)
  waiting-IsSound bitfield ut_pex_id window events s h r e =
      subst
        (AnswerSound sha1 (get_or t.piece_hashes idx []) (piece_length_at t idx) idx
          (HasPexPanic events))
        e (download-AnswerSound bitfield ut_pex_id window events h r)

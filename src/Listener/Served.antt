-- ===== src/Listener/Served.antt =====
-- Where the blocks come from that a peer is sent.
use bit_torrent.Listener.Requests.{on_request-cases, IsAnswered, read_cases}
use bit_torrent.Listener.{
  PieceProvider, Serving, ListenerOptions, send, follow, on_interested, serve_block, on_request,
  on_message, before_read, serve, greeted, choke_message, unchoke_message, is_judged,
}
use bit_torrent.Wire.Message.{
  Message, msg_piece, msg_interested, msg_request, piece_message, bitfield_message, read_message,
}
use bit_torrent.Base.{
  subst, ℕ, List, [], ◌∷◌, ◌≡◌, ◌≢◌, Bool, not, ◌&&◌, ◌==ℤ◌, some, ◌⊎◌, Bool-cases, inl, inr, refl,
  sym, All, All-append, length,
}

-- A message that is no block, or a block as the provider has it.
abbrev pub IsServed : ListenerOptions → Message → Type 0
IsServed o m =
    (m.id ≢ msg_piece)
    ⊎ ((p : PieceProvider) × (idx : ℕ) × (begin : ℕ) × (block : List ℕ) × (o.provider ≡ some p)
        × (p.read_piece idx begin (length block) ≡ some block)
        × (m ≡ piece_message idx begin block))

abbrev pub AreServed : ListenerOptions → Serving → Type 0
AreServed o s = All (IsServed o) s.sent

module _ (o : ListenerOptions) where
  send-AreServed :
      (m : Message) (s : Serving) → AreServed o s → IsServed o m → AreServed o (send m s)
  unfolding send
  send-AreServed m s h k = All-append (IsServed o) s.sent (m ∷ []) h (k, tt)

  choke_other : IsServed o choke_message
  choke_other = inl (λ e. cc e)

  unchoke_other : IsServed o unchoke_message
  unchoke_other = inl (λ e. cc e)

  follow-AreServed : (wanted : Bool) (s : Serving) → AreServed o s → AreServed o (follow wanted s)
  unfolding follow
  follow-AreServed wanted s h = elim (Bool-cases (wanted && s.peer_choked)) [
    | inl e ↦ rw e (send-AreServed unchoke_message s h unchoke_other)
    | inr e ↦ elim (Bool-cases (not wanted && not s.peer_choked)) [
      | inl f ↦ rw (e, f) (send-AreServed choke_message s h choke_other)
      | inr f ↦ rw (e, f) h
    ]
  ]

  on_interested-AreServed :
      (wanted : Bool) (s : Serving) → AreServed o s → AreServed o (on_interested o wanted s)
  unfolding on_interested
  on_interested-AreServed wanted s h = elim (Bool-cases (is_judged o)) [
    | inl e ↦ rw e (follow-AreServed wanted s h)
    | inr e ↦ rw e (send-AreServed unchoke_message s h unchoke_other)
  ]

  answered-AreServed :
      (payload : List ℕ) (s : Serving)
      → AreServed o s
      → IsAnswered o payload s
      → AreServed o (on_request o payload s)
  answered-AreServed payload s h a =
      let size = a.provider.read_length a.idx a.begin a.len a.block a.was_read in
      let again : a.provider.read_piece a.idx a.begin (length a.block) ≡ some a.block =
        subst (λ n. a.provider.read_piece a.idx a.begin n ≡ some a.block) (sym size) a.was_read in
      subst (AreServed o) (sym a.served) (
        unfold serve_block in
        send-AreServed (piece_message a.idx a.begin a.block) s h
          (inr (a.provider, a.idx, a.begin, a.block, a.provided, again, refl)))

  on_request-AreServed :
      (payload : List ℕ) (s : Serving) → AreServed o s → AreServed o (on_request o payload s)
  on_request-AreServed payload s h = elim (on_request-cases o payload s) [
    | inl same ↦ subst (AreServed o) (sym same) h
    | inr a ↦ answered-AreServed payload s h a
  ]

  on_message-AreServed :
      (wanted : Bool) (m : Message) (s : Serving)
      → AreServed o s
      → AreServed o (on_message o wanted m s)
  unfolding on_message
  on_message-AreServed wanted m s h = elim (Bool-cases (m.id ==ℤ msg_interested)) [
    | inl e ↦ rw e (on_interested-AreServed wanted s h)
    | inr e ↦ elim (Bool-cases (m.id ==ℤ msg_request)) [
      | inl f ↦ rw (e, f) (on_request-AreServed m.payload s h)
      | inr f ↦ rw (e, f) h
    ]
  ]

  before_read-AreServed :
      (wanted : Bool) (s : Serving) → AreServed o s → AreServed o (before_read o wanted s)
  unfolding before_read
  before_read-AreServed wanted s h = elim (Bool-cases (is_judged o)) [
    | inl e ↦ rw e (follow-AreServed wanted s h)
    | inr e ↦ rw e h
  ]

  -- Every block that a peer is sent in a run of the loop is what the provider answers for that piece,
  -- offset and length.
  pub serve-AreServed :
      (turns : List (Bool × Bool)) (conn : List ℕ) (s : Serving)
      → AreServed o s
      → AreServed o (serve o turns conn s).0
  unfolding serve
  serve-AreServed [] conn s h = h
  serve-AreServed ((wanted, again) ∷ turns) conn s h =
      let ready = before_read-AreServed wanted s h in
      elim (read_cases (read_message conn)) [
        | inl (x, e) ↦ rw (serve, e) ready
        | inr (m, rest, e) ↦
            rw (serve, e)
              (serve-AreServed turns rest (on_message o again m (before_read o wanted s))
                (on_message-AreServed again m (before_read o wanted s) ready))
      ]

  pub greeted-AreServed : AreServed o (greeted o)
  unfolding greeted bitfield_message
  greeted-AreServed = (inl (λ e. cc e), (inl (λ e. cc e), tt))

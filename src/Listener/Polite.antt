-- ===== src/Listener/Polite.antt =====
-- What a peer that connects can tell of the choke state from the messages that it was sent.
use bit_torrent.Listener.{
  read_message, serve, Serving, ListenerOptions, send, follow, on_interested, serve_block,
  on_request, on_message, before_read, greeted, choke_message, unchoke_message, is_judged,
}
use bit_torrent.Listener.Requests.{read_cases, on_request-cases}
use bit_torrent.Wire.Message.{
  read_message, Message, msg_choke, msg_unchoke, msg_piece, msg_interested, msg_request,
  piece_message, bitfield_message,
}
use mathlib.Core.Option.{some-injective, none-ne-some}
use bit_torrent.Base.{
  subst, ℕ, List, [], ◌∷◌, ◌++◌, ◌≡◌, Bool, true, false, not, ◌&&◌, ◌==ℤ◌, if◌then◌else◌, Option,
  none, some, Bool-cases, Option-cases, inl, inr, refl, sym,
}

-- Whether the peer is choked after a message; none for a block that is sent while it is.
unfoldable pub sees : Bool → Message → Option Bool
sees choked m =
    if m.id ==ℤ msg_choke
    then some true
    else if m.id ==ℤ msg_unchoke
    then some false
    else if m.id ==ℤ msg_piece && choked
    then none
    else some choked

unfoldable pub track : Bool → List Message → Option Bool
track choked [] = some choked
track choked (m ∷ ms) = elim (sees choked m) as (λ _. Option Bool) [
  | none ↦ none
  | some c ↦ track c ms
]

track-send :
    (c d e : Bool) (ms : List Message) (m : Message)
    → track c ms ≡ some d
    → sees d m ≡ some e
    → track c (ms ++ (m ∷ [])) ≡ some e
unfolding track
track-send c d e [] m h k =
    let seen : sees c m ≡ some e = subst (λ x. sees x m ≡ some e) (sym (some-injective _ _ h)) k in
    rw (track, seen) refl
track-send c d e (x ∷ ms) m h k = elim (Option-cases (sees c x)) [
  | inl e ↦ absurd (none-ne-some _ (rw (track, e) at h))
  | inr (c2, e) ↦ rw (track, e) (track-send c2 d _ ms m (rw (track, e) at h) k)
]

abbrev pub IsPolite : Serving → Type 0
IsPolite s = track true s.sent ≡ some s.peer_choked

pub greeted-IsPolite : (o : ListenerOptions) → IsPolite (greeted o)
unfolding greeted track sees bitfield_message
greeted-IsPolite o = refl

-- A message that leaves the peer in another state.
sends :
    (s : Serving) (m : Message) (c : Bool)
    → IsPolite s
    → sees s.peer_choked m ≡ some c
    → IsPolite (record (send m s) { peer_choked = c })
unfolding send
sends s m c h k = track-send true s.peer_choked c s.sent m h k

follow-IsPolite : (wanted : Bool) (s : Serving) → IsPolite s → IsPolite (follow wanted s)
unfolding follow
follow-IsPolite wanted s h = elim (Bool-cases (wanted && s.peer_choked)) [
  | inl e ↦ rw e (sends s unchoke_message false h (unfold sees in refl))
  | inr e ↦ elim (Bool-cases (not wanted && not s.peer_choked)) [
    | inl f ↦ rw (e, f) (sends s choke_message true h (unfold sees in refl))
    | inr f ↦ rw (e, f) h
  ]
]

on_interested-IsPolite :
    (o : ListenerOptions) (wanted : Bool) (s : Serving)
    → IsPolite s
    → IsPolite (on_interested o wanted s)
unfolding on_interested
on_interested-IsPolite o wanted s h = elim (Bool-cases (is_judged o)) [
  | inl e ↦ rw e (follow-IsPolite wanted s h)
  | inr e ↦ rw e (sends s unchoke_message false h (unfold sees in refl))
]

serve_block-IsPolite :
    (o : ListenerOptions) (idx begin : ℕ) (block : List ℕ) (s : Serving)
    → IsPolite s
    → s.peer_choked ≡ false
    → IsPolite (serve_block o idx begin block s)
unfolding serve_block
serve_block-IsPolite o idx begin block s h e =
    sends s (piece_message idx begin block) s.peer_choked h (unfold sees piece_message in rw e refl)

on_request-IsPolite :
    (o : ListenerOptions) (payload : List ℕ) (s : Serving)
    → IsPolite s
    → IsPolite (on_request o payload s)
on_request-IsPolite o payload s h = elim (on_request-cases o payload s) [
  | inl same ↦ subst IsPolite (sym same) h
  | inr a ↦
      subst IsPolite (sym a.served) (serve_block-IsPolite o a.idx a.begin a.block s h a.unchoked)
]

on_message-IsPolite :
    (o : ListenerOptions) (wanted : Bool) (m : Message) (s : Serving)
    → IsPolite s
    → IsPolite (on_message o wanted m s)
unfolding on_message
on_message-IsPolite o wanted m s h = elim (Bool-cases (m.id ==ℤ msg_interested)) [
  | inl e ↦ rw e (on_interested-IsPolite o wanted s h)
  | inr e ↦ elim (Bool-cases (m.id ==ℤ msg_request)) [
    | inl f ↦ rw (e, f) (on_request-IsPolite o m.payload s h)
    | inr f ↦ rw (e, f) h
  ]
]

before_read-IsPolite :
    (o : ListenerOptions) (wanted : Bool) (s : Serving)
    → IsPolite s
    → IsPolite (before_read o wanted s)
unfolding before_read
before_read-IsPolite o wanted s h = elim (Bool-cases (is_judged o)) [
  | inl e ↦ rw e (follow-IsPolite wanted s h)
  | inr e ↦ rw e h
]

-- In a run of the loop a peer is never sent a block while it was last told that it is choked, and what
-- it was last told is what the listener goes by.
pub serve-IsPolite :
    (o : ListenerOptions) (turns : List (Bool × Bool)) (conn : List ℕ) (s : Serving)
    → IsPolite s
    → IsPolite (serve o turns conn s).0
unfolding serve
serve-IsPolite o [] conn s h = h
serve-IsPolite o ((wanted, again) ∷ turns) conn s h =
    let ready = before_read-IsPolite o wanted s h in
    elim (read_cases (read_message conn)) [
      | inl (x, e) ↦ rw (serve, e) ready
      | inr (m, rest, e) ↦
          rw (serve, e)
            (serve-IsPolite o turns rest (on_message o again m (before_read o wanted s))
              (on_message-IsPolite o again m (before_read o wanted s) ready))
    ]

-- ===== src/Listener/Requests.antt =====
-- What a request of a peer leads to: nothing, or a block that the provider has.
use bit_torrent.Listener.{
  answer, requested, PieceProvider, Serving, ListenerOptions, on_request, serve_block,
}
use bit_torrent.Wire.Bytes.{ReadError}
use bit_torrent.Wire.Message.{Message, parse_request_message, PayloadError}
use bit_torrent.Base.{
  true, Bool, none, Option, ◌∙◌, ℕ, List, ◌≡◌, false, some, Result, ok, err, ◌⊎◌, inl, inr, refl,
}

-- A request that is answered.
pub record IsAnswered (o : ListenerOptions) (payload : List ℕ) (s : Serving) : Type 0 where
  pub provider : PieceProvider
  pub idx : ℕ
  pub begin : ℕ
  pub len : ℕ
  pub block : List ℕ
  pub provided : o.provider ≡ some provider
  pub unchoked : s.peer_choked ≡ false
  pub parsed : parse_request_message payload ≡ ok (idx, begin, len)
  pub was_read : provider.read_piece idx begin len ≡ some block
  pub served : on_request o payload s ≡ serve_block o idx begin block s

answer-cases :
    (o : ListenerOptions) (idx begin : ℕ) (read : Option (List ℕ)) (s : Serving)
    → (answer o idx begin read s ≡ s)
      ⊎ ((block : List ℕ) × (read ≡ some block)
          × (answer o idx begin read s ≡ serve_block o idx begin block s))
unfolding answer
answer-cases o idx begin none s = inl refl
answer-cases o idx begin (some block) s = inr (block, refl, refl)

requested-cases :
    (o : ListenerOptions) (payload : List ℕ) (s : Serving) (q : Option PieceProvider)
    (choked : Bool) (r : Result PayloadError (ℕ × ℕ × ℕ))
    → o.provider ≡ q
    → s.peer_choked ≡ choked
    → parse_request_message payload ≡ r
    → on_request o payload s ≡ requested o q choked r s
    → (on_request o payload s ≡ s) ⊎ IsAnswered o payload s
unfolding requested
requested-cases o payload s none choked r e c f run = inl run
requested-cases o payload s (some p) true r e c f run = inl run
requested-cases o payload s (some p) false (err x) e c f run = inl run
requested-cases o payload s (some p) false (ok (i, b, n)) e c f run =
    elim (answer-cases o i b (p.read_piece i b n) s) [
      | inl same ↦ inl (run ∙ same)
      | inr (block, was_read, same) ↦ inr (record {
        provider = p;
        idx = i;
        begin = b;
        len = n;
        block = block;
        provided = e;
        unchoked = c;
        parsed = f;
        was_read = was_read;
        served = run ∙ same;
      })
    ]

pub on_request-cases :
    (o : ListenerOptions) (payload : List ℕ) (s : Serving)
    → (on_request o payload s ≡ s) ⊎ IsAnswered o payload s
unfolding on_request
on_request-cases o payload s =
    requested-cases o payload s o.provider s.peer_choked (parse_request_message payload) refl refl
      refl refl

pub read_cases :
    (r : Result ReadError (Message × List ℕ))
    → ((x : ReadError) × (r ≡ err x)) ⊎ ((m : Message) × (rest : List ℕ) × (r ≡ ok (m, rest)))
read_cases (err x) = inl (x, refl)
read_cases (ok (m, rest)) = inr (m, rest, refl)

-- ===== src/Metadata/Settled.antt =====
-- How the race over the peers for the description of a torrent ends.
use bit_torrent.Metadata.Standing.{
  tries-append, IsSome, Fate, IsAnswer, IsFrom, IsOn, Holds, started, still,
}
use bit_torrent.Metadata.Race.{Came, Reach, Worker, Verdict, Race, Step}
use bit_torrent.Base.{
  Any-at, Any-swap, All-at, All-swap, Any_empty, Any-map, All-map, Any-append, ap, All-append, ◌≢◌,
  ◌++◌, ◌∙◌, refl, List, [], ◌∷◌, ◌≡◌, none, some, length, length-append, All, Any, ◌⊎◌, inl, inr,
  arith,
}

module _ {Peer Info : Type 0} (answer : Peer → Came Info) where
  all_done :
      (q : Peer) (ws : List (Worker answer))
      → All (λ w. w ≡ Worker.done) ws
      → Any (λ w. w ≡ Worker.trying q) ws
      → ⊥
  all_done q [] h k = k
  all_done q (w ∷ ws) h (inl k) = cc
  all_done q (w ∷ ws) h (inr k) = all_done q ws h.1 k

  step-Holds :
      (peers : List Peer) {r t : Race answer}
      → Holds answer peers r
      → Step answer (length peers) r t
      → Holds answer peers t
  step-Holds peers h (Step.hand_over p ps ws vs results received) = record {
    count = omega (
      arith,
      h.count,
      tries-append answer ws (Worker.idle ∷ vs),
      tries-append answer ws (Worker.trying p ∷ vs),
    );
    fates = All-map _ _ peers handed h.fates;
    answers = h.answers;
    fed = h.fed.1;
    tried = All-swap (IsFrom answer peers) ws vs Worker.idle (Worker.trying p) h.tried h.fed.0;
    stopped = go h.stopped;
    some_workers = omega (
      arith,
      h.some_workers,
      length-append ws (Worker.idle ∷ vs),
      length-append ws (Worker.trying p ∷ vs),
    );
  }
    where
      handed :
          (q : Peer)
          → Fate answer (p ∷ ps) (ws ++ (Worker.idle ∷ vs)) results q
          → Fate answer ps (ws ++ (Worker.trying p ∷ vs)) results q
      handed q (inl (inl e)) = inr (inl (Any-at _ ws vs (Worker.trying p) (ap Worker.trying e)))
      handed q (inl (inr k)) = inl k
      handed q (inr k) = still answer ws vs (Worker.trying p) ps results q (inr k)

      go :
          (p ∷ ps ≡ [])
            ⊎ (All (λ w. w ≢ Worker.done) (ws ++ (Worker.idle ∷ vs)) ⊎ Any (IsSome answer) results)
          → (ps ≡ [])
            ⊎ (All (λ w. w ≢ Worker.done) (ws ++ (Worker.trying p ∷ vs))
                ⊎ Any (IsSome answer) results)
      go (inl e) = cc
      go (inr (inl a)) = inr (inl (All-swap _ ws vs Worker.idle (Worker.trying p) a (λ e. cc)))
      go (inr (inr k)) = inr (inr k)
  step-Holds peers h (Step.no_more ws vs results received) = record {
    count = omega (
      arith,
      h.count,
      tries-append answer ws (Worker.idle ∷ vs),
      tries-append answer ws (Worker.done ∷ vs),
    );
    fates = All-map _ _ peers (λ q f. still answer ws vs Worker.done [] results q f) h.fates;
    answers = h.answers;
    fed = tt;
    tried = All-swap (IsFrom answer peers) ws vs Worker.idle Worker.done h.tried tt;
    stopped = inl refl;
    some_workers = omega (
      arith,
      h.some_workers,
      length-append ws (Worker.idle ∷ vs),
      length-append ws (Worker.done ∷ vs),
    );
  }
  step-Holds peers h (Step.answered feed p i ws vs results received e) =
      let success : Any (IsSome answer) (results ++ (some i ∷ [])) =
        Any-append (IsSome answer) results (some i ∷ []) (inr (inl tt)) in
      let from = All-at (IsFrom answer peers) ws vs (Worker.trying p) h.tried in
      record {
        count = omega (
          arith,
          h.count,
          tries-append answer ws (Worker.trying p ∷ vs),
          tries-append answer ws (Worker.done ∷ vs),
          length-append results (some i ∷ []),
        );
        fates = All-map _ _ peers (λ q f. inr (inr (inr success))) h.fates;
        answers =
            All-append (IsAnswer answer peers) results (some i ∷ []) h.answers
              (Any-map _ _ peers (λ q g. ap answer g ∙ e) from, tt);
        fed = h.fed;
        tried = All-swap (IsFrom answer peers) ws vs (Worker.trying p) Worker.done h.tried tt;
        stopped = inr (inr success);
        some_workers = omega (
          arith,
          h.some_workers,
          length-append ws (Worker.trying p ∷ vs),
          length-append ws (Worker.done ∷ vs),
        );
      }
  step-Holds peers h (Step.refused feed p ws vs results received e) = record {
    count = omega (
      arith,
      h.count,
      tries-append answer ws (Worker.trying p ∷ vs),
      tries-append answer ws (Worker.idle ∷ vs),
      length-append results (none ∷ []),
    );
    fates = All-map _ _ peers refuse h.fates;
    answers = All-append (IsAnswer answer peers) results (none ∷ []) h.answers (tt, tt);
    fed = h.fed;
    tried = All-swap (IsFrom answer peers) ws vs (Worker.trying p) Worker.idle h.tried tt;
    stopped = go h.stopped;
    some_workers = omega (
      arith,
      h.some_workers,
      length-append ws (Worker.trying p ∷ vs),
      length-append ws (Worker.idle ∷ vs),
    );
  }
    where
      refuse :
          (q : Peer)
          → Fate answer feed (ws ++ (Worker.trying p ∷ vs)) results q
          → Fate answer feed (ws ++ (Worker.idle ∷ vs)) (results ++ (none ∷ [])) q
      refuse q (inl k) = inl k
      refuse q (inr (inl k)) =
          elim (Any-swap (λ w. w ≡ Worker.trying q) ws vs (Worker.trying p) Worker.idle k) [
            | inl f ↦ inr (inr (inl cc))
            | inr m ↦ inr (inl m)
          ]
      refuse q (inr (inr (inl k))) = inr (inr (inl k))
      refuse q (inr (inr (inr k))) =
          inr (inr (inr (Any-append (IsSome answer) results (none ∷ []) (inl k))))

      go :
          (feed ≡ [])
            ⊎ (All (λ w. w ≢ Worker.done) (ws ++ (Worker.trying p ∷ vs))
                ⊎ Any (IsSome answer) results)
          → (feed ≡ [])
            ⊎ (All (λ w. w ≢ Worker.done) (ws ++ (Worker.idle ∷ vs))
                ⊎ Any (IsSome answer) (results ++ (none ∷ [])))
      go (inl f) = inl f
      go (inr (inl a)) = inr (inl (All-swap _ ws vs (Worker.trying p) Worker.idle a (λ e. cc)))
      go (inr (inr k)) = inr (inr (Any-append (IsSome answer) results (none ∷ []) (inl k)))
  step-Holds peers h (Step.receive feed ws results received l) = record {
    count = omega (arith, h.count);
    fates = All-map _ _ peers passed h.fates;
    answers = h.answers.1;
    fed = h.fed;
    tried = h.tried;
    stopped = go h.stopped;
    some_workers = h.some_workers;
  }
    where
      passed : (q : Peer) → Fate answer feed ws (none ∷ results) q → Fate answer feed ws results q
      passed q (inl k) = inl k
      passed q (inr (inl k)) = inr (inl k)
      passed q (inr (inr (inl k))) = inr (inr (inl k))
      passed q (inr (inr (inr (inl k)))) = absurd k
      passed q (inr (inr (inr (inr k)))) = inr (inr (inr k))

      go :
          (feed ≡ []) ⊎ (All (λ w. w ≢ Worker.done) ws ⊎ Any (IsSome answer) (none ∷ results))
          → (feed ≡ []) ⊎ (All (λ w. w ≢ Worker.done) ws ⊎ Any (IsSome answer) results)
      go (inl f) = inl f
      go (inr (inl a)) = inr (inl a)
      go (inr (inr (inl k))) = absurd k
      go (inr (inr (inr k))) = inr (inr k)
  step-Holds peers h (Step.return_found feed ws i results received l) = h.answers.0
  step-Holds peers h (Step.return_failed feed ws results l) = All-map _ _ peers over h.fates
    where
      over : (q : Peer) → Fate answer feed ws results q → answer q ≡ Came.gave_up
      over q (inl k) = absurd (Any_empty _ feed k (omega (arith, h.count)))
      over q (inr (inl k)) = absurd (all_done q ws l k)
      over q (inr (inr (inl k))) = k
      over q (inr (inr (inr k))) = absurd (Any_empty _ results k (omega (arith, h.count)))

  pub Reach-Holds :
      (peers : List Peer) {r : Race answer} → Reach answer peers r → Holds answer peers r
  Reach-Holds peers Reach.start = started answer peers
  Reach-Holds peers (Reach.step h s) = step-Holds peers (Reach-Holds peers h) s

  -- What the race returned is right: a description that a peer came to, or an error only where every
  -- peer came to one.
  abbrev pub IsRight : List Peer → Verdict answer → Type 0
  IsRight peers Verdict.running = Unit {0}
  IsRight peers Verdict.failed = All (λ p. answer p ≡ Came.gave_up) peers
  IsRight peers (Verdict.found i) = Any (λ p. answer p ≡ Came.gave i) peers

  -- In whatever order the goroutines take their steps: a description that the race returns is one that
  -- a peer came to, and where it returns an error every peer came to one.
  pub Reach-IsRight :
      (peers : List Peer) {r : Race answer} → Reach answer peers r → IsRight peers r.verdict
  Reach-IsRight peers {r} h = right r.verdict (Reach-Holds peers h)
    where
      right :
          (v : Verdict answer)
          → (elim v as (λ _. Type 0) [
            | Verdict.running ↦ IsOn answer peers r.feed r.workers r.results r.received
            | Verdict.failed ↦ All (λ p. answer p ≡ Came.gave_up) peers
            | Verdict.found i ↦ Any (λ p. answer p ≡ Came.gave i) peers
          ])
          → IsRight peers v
      right Verdict.running k = tt
      right Verdict.failed k = k
      right (Verdict.found i) k = k

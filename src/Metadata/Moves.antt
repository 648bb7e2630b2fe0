-- ===== src/Metadata/Moves.antt =====
-- When the race over the peers for the description of a torrent goes on, and when it does not.
use bit_torrent.Metadata.Standing.{tries, IsSome, IsOn}
use bit_torrent.Metadata.Settled.{Reach-Holds}
use bit_torrent.Metadata.Race.{Came, Worker, Verdict, Race, Step, Reach}
use bit_torrent.Base.{
  Any-at, ℕ, suc, List, [], ◌∷◌, ◌++◌, ◌+◌, ◌*◌, ◌<◌, ◌≡◌, ◌≢◌, Option, none, some, length,
  length-append, All, Any, ◌⊎◌, inl, inr, refl, sym, subst, ap, arith,
}

module _ {Peer Info : Type 0} (answer : Peer → Came Info) where
  abbrev load : List (Worker answer) → ℕ
  load [] = 0
  load (Worker.idle ∷ ws) = suc (load ws)
  load (Worker.trying p ∷ ws) = suc (suc (suc (load ws)))
  load (Worker.done ∷ ws) = load ws

  -- What is left to do.
  abbrev pub weight : Race answer → ℕ
  weight r =
      3 * length r.feed
      + load r.workers
      + length r.results
      + elim r.verdict as (λ _. ℕ) [ Verdict.running ↦ 1 | _ ↦ 0 ]

  load-append : (ws vs : List (Worker answer)) → load (ws ++ vs) ≡ load ws + load vs
  load-append [] vs = omega arith
  load-append (Worker.idle ∷ ws) vs = omega (arith, load-append ws vs)
  load-append (Worker.trying p ∷ ws) vs = omega (arith, load-append ws vs)
  load-append (Worker.done ∷ ws) vs = load-append ws vs

  -- Every step leaves less to do.
  pub Step-weight : {n : ℕ} {r t : Race answer} → Step answer n r t → weight t < weight r
  Step-weight (Step.hand_over p ps ws vs results received) =
      omega (arith, load-append ws (Worker.idle ∷ vs), load-append ws (Worker.trying p ∷ vs))
  Step-weight (Step.no_more ws vs results received) =
      omega (arith, load-append ws (Worker.idle ∷ vs), load-append ws (Worker.done ∷ vs))
  Step-weight (Step.answered feed p i ws vs results received e) = omega (
    arith,
    load-append ws (Worker.trying p ∷ vs),
    load-append ws (Worker.done ∷ vs),
    length-append results (some i ∷ []),
  )
  Step-weight (Step.refused feed p ws vs results received e) = omega (
    arith,
    load-append ws (Worker.trying p ∷ vs),
    load-append ws (Worker.idle ∷ vs),
    length-append results (none ∷ []),
  )
  Step-weight (Step.receive feed ws results received h) = omega arith
  Step-weight (Step.return_found feed ws i results received h) = omega arith
  Step-weight (Step.return_failed feed ws results h) = omega arith

  -- A worker that tries a peer or waits for one, or none that is not done.
  abbrev Found : List (Worker answer) → Type 0
  Found ws =
      ((xs : List (Worker answer)) × (p : Peer) × (ys : List (Worker answer)) × (ws
          ≡ xs ++ (Worker.trying p ∷ ys)))
      ⊎ ((tries answer ws ≡ 0)
          × (((xs : List (Worker answer)) × (ys : List (Worker answer)) × (ws
                  ≡ xs ++ (Worker.idle ∷ ys)))
              ⊎ All (λ w. w ≡ Worker.done) ws))

  look : (ws : List (Worker answer)) → Found ws
  look [] = inr (refl, inr tt)
  look (Worker.trying p ∷ ws) = inl ([], p, ws, refl)
  look (Worker.idle ∷ ws) = elim (look ws) [
    | inl (xs, p, ys, e) ↦ inl (Worker.idle ∷ xs, p, ys, ap (◌∷◌ Worker.idle) e)
    | inr (e, rest) ↦ inr (e, inl ([], ws, refl))
  ]
  look (Worker.done ∷ ws) = elim (look ws) [
    | inl (xs, p, ys, e) ↦ inl (Worker.done ∷ xs, p, ys, ap (◌∷◌ Worker.done) e)
    | inr (e, inl (xs, ys, f)) ↦ inr (e, inl (Worker.done ∷ xs, ys, ap (◌∷◌ Worker.done) f))
    | inr (e, inr d) ↦ inr (e, inr (refl, d))
  ]

  abbrev on : List Peer → List (Worker answer) → List (Option Info) → ℕ → Race answer
  on feed ws results received = record {
    feed = feed;
    workers = ws;
    results = results;
    received = received;
    verdict = Verdict.running;
  }

  abbrev pub Moves : ℕ → Race answer → Type 0
  Moves n r = (t : Race answer) × Step answer n r t

  -- A worker that tries a peer on which it stays for ever.
  abbrev pub Stays : Worker answer → Type 0
  Stays (Worker.trying p) = answer p ≡ Came.never
  Stays _ = ⊥

  came :
      (p : Peer)
      → ((i : Info) × (answer p ≡ Came.gave i))
        ⊎ ((answer p ≡ Came.gave_up) ⊎ (answer p ≡ Came.never))
  came p = go (answer p)
    where
      go :
          (c : Came Info)
          → ((i : Info) × (c ≡ Came.gave i)) ⊎ ((c ≡ Came.gave_up) ⊎ (c ≡ Came.never))
      go (Came.gave i) = inl (i, refl)
      go Came.gave_up = inr (inl refl)
      go Came.never = inr (inr refl)

  moves :
      (peers feed : List Peer) (ws : List (Worker answer)) (results : List (Option Info))
      (received : ℕ)
      → IsOn answer peers feed ws results received
      → Moves (length peers) (on feed ws results received) ⊎ Any Stays ws
  moves peers feed ws (none ∷ results) received h =
      inl (_, Step.receive feed ws results received (omega (arith, h.count)))
  moves peers feed ws (some i ∷ results) received h =
      inl (_, Step.return_found feed ws i results received (omega (arith, h.count)))
  moves peers feed ws [] received h = elim (look ws) [
    | inl (xs, p, ys, e) ↦
        subst (λ w. Moves (length peers) (on feed w [] received) ⊎ Any Stays w) (sym e)
          (elim (came p) [
            | inl (i, f) ↦ inl (_, Step.answered feed p i xs ys [] received f)
            | inr (inl f) ↦ inl (_, Step.refused feed p xs ys [] received f)
            | inr (inr f) ↦ inr (Any-at Stays xs ys (Worker.trying p) f)
          ])
    | inr (e, inl (xs, ys, f)) ↦
        inl (subst (λ w. Moves (length peers) (on feed w [] received)) (sym f) (waiting feed xs ys))
    | inr (e, inr d) ↦ inl (over feed e d h.count h.some_workers h.stopped)
  ]
    where
      waiting :
          (feed : List Peer) (xs ys : List (Worker answer))
          → Moves (length peers) (on feed (xs ++ (Worker.idle ∷ ys)) [] received)
      waiting [] xs ys = (_, Step.no_more xs ys [] received)
      waiting (p ∷ ps) xs ys = (_, Step.hand_over p ps xs ys [] received)

      some_done :
          (ws : List (Worker answer))
          → 0 < length ws
          → All (λ w. w ≡ Worker.done) ws
          → All (λ w. w ≢ Worker.done) ws
          → ⊥
      some_done [] l d k = omega (arith, l)
      some_done (w ∷ ws) l d k = k.0 (d.0)

      over :
          (feed : List Peer)
          → tries answer ws ≡ 0
          → All (λ w. w ≡ Worker.done) ws
          → received + 0 + tries answer ws + length feed ≡ length peers
          → 0 < length ws
          → (feed ≡ []) ⊎ (All (λ w. w ≢ Worker.done) ws ⊎ Any (IsSome answer) [])
          → Moves (length peers) (on feed ws [] received)
      over feed e d c l (inl f) =
          subst (λ n. Moves (length peers) (on feed ws [] n)) (omega (arith, e, c, the_length f))
            (_, Step.return_failed feed ws [] d)
        where
          the_length : feed ≡ [] → length feed ≡ 0
          the_length f = ap length f
      over feed e d c l (inr (inl k)) = absurd (some_done ws l d k)
      over feed e d c l (inr (inr k)) = absurd k

  -- As long as the race has not returned, some goroutine can move or a worker tries a peer on which
  -- fetchMetadata runs for ever, and whatever step is taken leaves less to do.
  pub Reach-Moves :
      (peers : List Peer) {r : Race answer}
      → Reach answer peers r
      → r.verdict ≡ Verdict.running
      → (Moves (length peers) r ⊎ Any Stays r.workers)
        × ((t : Race answer) → Step answer (length peers) r t → weight t < weight r)
  Reach-Moves peers {r} h e = (go r.verdict e (Reach-Holds answer peers h), λ t s. Step-weight s)
    where
      go :
          (v : Verdict answer)
          → v ≡ Verdict.running
          → (elim v as (λ _. Type 0) [
            | Verdict.running ↦ IsOn answer peers r.feed r.workers r.results r.received
            | Verdict.failed ↦ All (λ p. answer p ≡ Came.gave_up) peers
            | Verdict.found i ↦ Any (λ p. answer p ≡ Came.gave i) peers
          ])
          → ((t : Race answer) × Step answer
                (length peers)
                (record {
                  feed = r.feed;
                  workers = r.workers;
                  results = r.results;
                  received = r.received;
                  verdict = v;
                })
                t)
            ⊎ Any Stays r.workers
      go Verdict.running e k = moves peers r.feed r.workers r.results r.received k
      go Verdict.failed e k = cc
      go (Verdict.found i) e k = cc

-- ===== src/Metadata/Standing.antt =====
-- What holds of the race over the peers for the description of a torrent until it returns.
use bit_torrent.Metadata.Race.{Came, start_race, worker_count, Worker, Verdict, Race}
use bit_torrent.Base.{
  Any-swap, members, zero, All-map, replicate, length-replicate, ◌≢◌, ◌++◌, refl, ℕ, suc, List, [],
  ◌∷◌, ◌+◌, ◌<◌, ◌≡◌, Option, none, some, length, All, Any, ◌⊎◌, inl, inr, arith,
}

module _ {Peer Info : Type 0} (answer : Peer → Came Info) where
  abbrev pub tries : List (Worker answer) → ℕ
  tries [] = 0
  tries (Worker.trying p ∷ ws) = suc (tries ws)
  tries (_ ∷ ws) = tries ws

  pub tries-append : (ws vs : List (Worker answer)) → tries (ws ++ vs) ≡ tries ws + tries vs
  tries-append [] vs = omega arith
  tries-append (Worker.idle ∷ ws) vs = tries-append ws vs
  tries-append (Worker.trying p ∷ ws) vs = omega (arith, tries-append ws vs)
  tries-append (Worker.done ∷ ws) vs = tries-append ws vs

  abbrev pub IsSome : Option Info → Type 0
  IsSome none = ⊥
  IsSome (some i) = Unit {0}

  -- Where a peer stands: not handed over, tried, in vain, or overtaken by a success.
  abbrev pub Fate : List Peer → List (Worker answer) → List (Option Info) → Peer → Type 0
  Fate feed ws results p =
      Any (λ q. q ≡ p) feed
      ⊎ (Any (λ w. w ≡ Worker.trying p) ws ⊎ ((answer p ≡ Came.gave_up) ⊎ Any IsSome results))

  -- A result is an error or what a peer answered.
  abbrev pub IsAnswer : List Peer → Option Info → Type 0
  IsAnswer peers none = Unit {0}
  IsAnswer peers (some i) = Any (λ p. answer p ≡ Came.gave i) peers

  abbrev pub IsFrom : List Peer → Worker answer → Type 0
  IsFrom peers (Worker.trying p) = Any (λ q. q ≡ p) peers
  IsFrom peers _ = Unit {0}

  pub record IsOn (peers feed : List Peer) (ws : List (Worker answer))
      (results : List (Option Info)) (received : ℕ) : Type 0 where
    pub count : received + length results + tries ws + length feed ≡ length peers
    pub fates : All (Fate feed ws results) peers
    pub answers : All (IsAnswer peers) results
    pub fed : All (λ p. Any (λ q. q ≡ p) peers) feed
    pub tried : All (IsFrom peers) ws
    pub stopped : (feed ≡ []) ⊎ (All (λ w. w ≢ Worker.done) ws ⊎ Any IsSome results)
    pub some_workers : 0 < length ws

  -- What a race has come to.
  abbrev pub Holds : List Peer → Race answer → Type 0
  Holds peers r = elim r.verdict as (λ _. Type 0) [
    | Verdict.running ↦ IsOn peers r.feed r.workers r.results r.received
    | Verdict.failed ↦ All (λ p. answer p ≡ Came.gave_up) peers
    | Verdict.found i ↦ Any (λ p. answer p ≡ Came.gave i) peers
  ]

  replicated :
      (P : Worker answer → Type 0) (k : ℕ) → P Worker.idle → All P (replicate k Worker.idle)
  replicated P zero h = tt
  replicated P (suc k) h = (h, replicated P k h)

  tries-replicate : (k : ℕ) → tries (replicate k Worker.idle) ≡ 0
  tries-replicate zero = refl
  tries-replicate (suc k) = tries-replicate k

  length-idle : (k : ℕ) → length {A = Worker answer} (replicate k Worker.idle) ≡ k
  length-idle k = length-replicate k Worker.idle

  pub started : (peers : List Peer) → Holds peers (start_race answer peers)
  unfolding start_race
  started [] = tt
  started (p ∷ ps) = record {
    count = omega (arith, tries-replicate (worker_count answer (p ∷ ps)));
    fates = All-map _ _ (p ∷ ps) (λ q h. inl h) (members (p ∷ ps));
    answers = tt;
    fed = members (p ∷ ps);
    tried = replicated _ (worker_count answer (p ∷ ps)) tt;
    stopped = inr (inl (replicated _ (worker_count answer (p ∷ ps)) (λ e. cc)));
    some_workers = omega (arith, length-idle (worker_count answer (p ∷ ps)), workers_exist);
  }
    where
      workers_exist : 0 < worker_count answer (p ∷ ps)
      workers_exist = unfold worker_count in ground arith

  pub still :
      (ws vs : List (Worker answer)) (w : Worker answer) (feed : List Peer)
      (results : List (Option Info)) (q : Peer)
      → Fate feed (ws ++ (Worker.idle ∷ vs)) results q
      → Fate feed (ws ++ (w ∷ vs)) results q
  still ws vs w feed results q (inl h) = inl h
  still ws vs w feed results q (inr (inl k)) =
      elim (Any-swap (λ w. w ≡ Worker.trying q) ws vs Worker.idle w k) [
        | inl e ↦ cc
        | inr m ↦ inr (inl m)
      ]
  still ws vs w feed results q (inr (inr k)) = inr (inr k)

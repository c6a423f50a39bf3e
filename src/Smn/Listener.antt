-- ===== src/Smn/Listener.antt =====
-- pkg/controller/autopilot.go: the attempts of SmnReceiver to listen, and the requests in between.
use otc_rds_operator.Prelude.{
  ℕ, zero, suc, ◌+◌, ◌≤◌, ◌≢◌, ◌≡◌, ◌⊎◌, ◌==◌, Bool-cases, inl, inr, String, Option, none, some,
  List, [], ◌∷◌, arith, refl,
}
use otc_rds_operator.Cloud.{Env, Call, Trace, Request, listen_and_serve}
use otc_rds_operator.Exec.{State, done, exit, perform}
use otc_rds_operator.Exec.Keeps.{kept}
use otc_rds_operator.Exec.Stable.{kind, listening, Stable}
use otc_rds_operator.Flavor.{Uniq}
use otc_rds_operator.Smn.Receiver.{Subscriber, on_post}
use otc_rds_operator.Smn.Footprint.{on_post-Keeps}
use otc_rds_operator.Smn.Scaling.{OnlyScales, on_post-OnlyScales}
use otc_rds_operator.Smn.Server.{
  Reaction, answered, aborted, exited, serve_on, Exit, returns, no_subscriber, decode, Server, post,
  handle, serve, settle_listener, listen, smn_receiver,
}

-- What the handling of a POST request keeps is kept by any number of requests.
module _ (uniq : Uniq) (E : Env) (P : State E → Type 0)
    (posted : (sub : Subscriber) (s : State E) → P s → P (on_post uniq E sub s).1) where
  handle-kept : (request : Request) (p : Server uniq E) → P p.1 → P (handle uniq E request p).1.1
  unfolding handle post
  handle-kept request (sub, s) h = elim (Bool-cases (request.method == "GET")) [
    | inl get ↦ rw get h
    | inr other ↦ elim (Bool-cases (request.method == "POST")) [
      | inl is_post ↦ rw (other, is_post) (posted (decode request.body sub) s h)
      | inr unknown ↦ rw (other, unknown) h
    ]
  ]

  serve-kept :
      (requests : List Request) (p : Server uniq E) → P p.1 → P (serve uniq E requests p).1.1
  unfolding serve
  serve-kept [] p h = h
  serve-kept (request ∷ rest) p h =
      let (x, q) = handle uniq E request p in
      go x q (handle-kept request p h) (serve-kept rest q (handle-kept request p h))
    where
      go :
          (x : Reaction) (q : Server uniq E)
          → P q.1
          → P (serve uniq E rest q).1.1
          → P (serve_on uniq E x q (serve uniq E rest q)).1.1
      go (answered r) q now later = later
      go aborted q now later = later
      go (exited e) q now later = now

  -- So it is by all attempts, if the start of an attempt keeps it.
  pub listen-kept :
      ((s : State E) → P s → P (perform E (listen_and_serve "0.0.0.0:8080") s).1)
      → (retries : ℕ) (p : Server uniq E) → P p.1
      → P (listen uniq E retries p).1.1
  unfolding listen perform
  listen-kept started zero p h = h
  listen-kept started (suc retries) (sub, s) h =
      let ((requests, err), w) = E.answer (listen_and_serve "0.0.0.0:8080") s.world in
      let begun = (perform E (listen_and_serve "0.0.0.0:8080") s).1 in
      settled retries err (serve uniq E requests (sub, begun)) (listen-kept started retries)
        (serve-kept requests (sub, begun) (started s h))
    where
      settled :
          (n : ℕ) (err : Option String) (p : Exit × Server uniq E)
          → ((q : Server uniq E) → P q.1 → P (listen uniq E n q).1.1)
          → P p.1.1
          → P (settle_listener uniq E (listen uniq E n) err p).1.1
      settled n err (some e, p) again h = h
      settled n none (none, p) again h = h
      settled n (some e) (none, p) again h = again p h

-- How often the receiver has begun to listen.
abbrev is_listen : Call → ℕ
is_listen (listen_and_serve _) = 1
is_listen _ = 0

abbrev pub listens : Trace → ℕ
listens [] = 0
listens (e ∷ t) = is_listen e.call + listens t

is_listen-other : (c : Call) → kind c ≢ listening → is_listen c ≡ 0
is_listen-other (listen_and_serve a) h = absurd (h refl)
is_listen-other c h = λ i. 0

-- `http.ListenAndServe` always returns a non-nil error.
abbrev pub AlwaysFails : Env → Type 0
AlwaysFails E = (w : E.World) → (E.answer (listen_and_serve "0.0.0.0:8080") w).0.1 ≢ none

module _ (uniq : Uniq) (E : Env) where
  abbrev Has : ℕ → State E → Type 0
  Has n s = listens s.trace ≡ n

  Has-Stable : (n : ℕ) → Stable {E = E} listening (Has n)
  Has-Stable n = record {
    calls = λ c other a w s h. omega (arith, is_listen-other c other, h);
    env = λ g p s h. h;
    writes = λ f same s h. h;
  }

  on_post-Has : (n : ℕ) (sub : Subscriber) (s : State E) → Has n s → Has n (on_post uniq E sub s).1
  on_post-Has n sub s h =
      kept (on_post-Keeps uniq (Has-Stable n) (λ r t g. g) (λ e. cc) (λ e. cc) sub) s h

  -- The receiver has listened so often from `n` times on, or the process has ended before that.
  abbrev Ends : ℕ → ℕ → Exit × Server uniq E → Type 0
  Ends n retries (none, p) = Has (n + retries) p.1
  Ends n retries (some e, p) = listens p.1.trace ≤ n + retries

  Ends-again :
      (n retries : ℕ) (p : Exit × Server uniq E) → Ends (n + 1) retries p → Ends n (suc retries) p
  Ends-again n retries (none, p) h = omega (arith, h)
  Ends-again n retries (some e, p) h = omega (arith, h)

  settle_listener-Ends :
      (retries n : ℕ) (err : Option String) (p : Exit × Server uniq E)
      → err ≢ none
      → ((q : Server uniq E) → Has (n + 1) q.1 → Ends (n + 1) retries (listen uniq E retries q))
      → Has (n + 1) p.1.1
      → Ends n (suc retries) (settle_listener uniq E (listen uniq E retries) err p)
  settle_listener-Ends retries n err (some e, p) fails again h = omega (arith, h)
  settle_listener-Ends retries n none (none, p) fails again h = absurd (fails refl)
  settle_listener-Ends retries n (some e) (none, p) fails again h =
      Ends-again n retries (listen uniq E retries p) (again p h)

  listen-Ends :
      AlwaysFails E
      → (retries n : ℕ) (p : Server uniq E) → Has n p.1
      → Ends n retries (listen uniq E retries p)
  unfolding listen perform
  listen-Ends fails zero n p h = omega (arith, h)
  listen-Ends fails (suc retries) n (sub, s) h =
      let ((requests, err), w) = E.answer (listen_and_serve "0.0.0.0:8080") s.world in
      let begun = (perform E (listen_and_serve "0.0.0.0:8080") s).1 in
      settle_listener-Ends retries n err (serve uniq E requests (sub, begun)) (fails s.world)
        (listen-Ends fails retries (n + 1))
        (serve-kept uniq E (Has (n + 1)) (on_post-Has (n + 1)) requests (sub, begun)
          (omega (arith, h)))

  returned :
      (n : ℕ) (p : Exit × Server uniq E)
      → Ends n 3 p
      → ((returns uniq E p.0 ≡ done tt) × (listens p.1.1.trace ≡ n + 3))
        ⊎ ((e : String) × (returns uniq E p.0 ≡ exit e) × (listens p.1.1.trace ≤ n + 3))
  returned n (none, p) h = inl (refl, h)
  returned n (some e, p) h = inr (e, refl, h)

  -- As http.ListenAndServe always comes back with an error, the receiver listens exactly three times,
  -- whatever requests it has served in between, and then returns nil, unless a request ends the
  -- process before.
  pub smn_receiver-ends :
      (s : State E)
      → AlwaysFails E
      → (((smn_receiver uniq E s).0 ≡ done tt)
          × (listens (smn_receiver uniq E s).1.trace ≡ listens s.trace + 3))
        ⊎ ((e : String) × ((smn_receiver uniq E s).0 ≡ exit e)
            × (listens (smn_receiver uniq E s).1.trace ≤ listens s.trace + 3))
  unfolding smn_receiver
  smn_receiver-ends s fails =
      returned (listens s.trace) (listen uniq E 3 (no_subscriber, s))
        (listen-Ends fails 3 (listens s.trace) (no_subscriber, s) refl)

  -- Whatever requests arrive, in whatever order, and whatever the world answers: SmnReceiver writes
  -- a resource back only in the namespace in which it has read it, and changes nothing of what it
  -- has read but the volume size and the flavor, if that holds of the writes made before.
  pub smn_receiver-OnlyScales :
      (s : State E) → OnlyScales s.trace → OnlyScales (smn_receiver uniq E s).1.trace
  unfolding smn_receiver perform
  smn_receiver-OnlyScales s h =
      listen-kept uniq E (λ t. OnlyScales t.trace) (on_post-OnlyScales uniq E) (λ t g. (tt, g)) 3
        (no_subscriber, s) h

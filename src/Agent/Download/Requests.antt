-- ===== src/Agent/Download/Requests.antt =====
-- How many requests DownloadWithResume of internal/agent/download.go makes.
use edge_fleet_operator_demo.Base.{
  ℕ, zero, suc, ◌+◌, ◌≤◌, ◌≡◌, refl, inl, inr, Bool, Bool-cases, Option, Option-cases, none, some,
  arith, ◌==◌,
}
use edge_fleet_operator_demo.Base.Words.{i64_ltb}
use edge_fleet_operator_demo.Agent.Download.{
  Bytes, DownloadOptions, with_defaults, Network, Reply, reply, unreachable, DownloadError, save,
  receive, backoff_of, wait_before, download_once, attempts, download_with_resume,
}

-- A network that counts the requests.
abbrev pub counting : Network → Network
counting N = record {
  World = N.World × ℕ;
  bad_url = N.bad_url;
  fetch = λ t n w. let (r, u) = N.fetch t n w.0 in (r, (u, suc w.1));
  opens = λ w. let (b, u) = N.opens w.0 in (b, (u, w.1));
  random_below = λ n w. let (r, u) = N.random_below n w.0 in (r, (u, w.1));
  wait = λ t w. let (b, u) = N.wait t w.0 in (b, (u, w.1));
}

module _ (N : Network) where
  abbrev counted : Network
  counted = counting N

  save_count :
      (start body : Bytes) (whole : Bool) (dest : Option Bytes) (w : counted.World)
      → (save counted start body whole dest w).2.1 ≡ w.1
  unfolding save
  save_count start body whole dest w = elim (Bool-cases (N.opens w.0).0) [
    | inl e ↦ rw (save, e) refl
    | inr e ↦ rw (save, e) refl
  ]

  receive_count :
      (r : Reply) (dest : Option Bytes) (w : counted.World) → (receive counted r dest w).2.1 ≡ w.1
  unfolding receive
  receive_count unreachable dest w = refl
  receive_count (reply status body whole) dest w = elim (Bool-cases (status == 206)) [
    | inl e ↦ rw (receive, e) (save_count _ body whole dest w)
    | inr e ↦ elim (Bool-cases (status == 200)) [
      | inl f ↦ rw (receive, e, f) (save_count "" body whole dest w)
      | inr f ↦ elim (Bool-cases (status == 416)) [
        | inl g ↦ rw (receive, e, f, g) refl
        | inr g ↦ rw (receive, e, f, g) refl
      ]
    ]
  ]

  once_count :
      (t : ℕ) (dest : Option Bytes) (w : counted.World)
      → (download_once counted t dest w).2.1 ≤ suc w.1
  unfolding download_once
  once_count t dest w = elim (Bool-cases N.bad_url) [
    | inl e ↦ rw (download_once, e) (omega arith)
    | inr e ↦ rw (download_once, e) (rw (receive_count _ dest _) (omega arith))
  ]

  wait_count :
      (o : DownloadOptions) (made : ℕ) (w : counted.World)
      → (wait_before counted o made w).1.1 ≡ w.1
  unfolding wait_before
  wait_count o zero w = refl
  wait_count o (suc n) w = elim (Bool-cases (i64_ltb 0 (backoff_of o n))) [
    | inl e ↦ rw (wait_before, e) refl
    | inr e ↦ rw (wait_before, e) refl
  ]

  attempts_count :
      (o : DownloadOptions) (left made : ℕ) (last : Option DownloadError) (dest : Option Bytes)
      (w : counted.World)
      → (attempts counted o left made last dest w).2.1 ≤ w.1 + left
  unfolding attempts
  attempts_count o zero made last dest w = omega arith
  attempts_count o (suc left) made last dest w =
      let waited = wait_before counted o made w in
      let quiet = wait_count o made w in
      let once = download_once counted o.attempt_timeout dest waited.1 in
      let more = once_count o.attempt_timeout dest waited.1 in
      elim (Option-cases waited.0) [
        | inr (r, stop) ↦ rw (attempts, stop) (omega (arith, quiet))
        | inl go ↦ elim (Option-cases once.0) [
          | inl ends ↦ rw (attempts, go, ends) (omega (arith, quiet, more))
          | inr (error, ends) ↦
              let rest = attempts_count o left (suc made) (some error) once.1 once.2 in
              rw (attempts, go, ends) (omega (arith, quiet, more, rest))
        ]
      ]

  -- However the server answers, a download makes at most as many requests as the options allow.
  pub requests_bounded :
      (opts : DownloadOptions) (dest : Option Bytes) (w : N.World)
      → (download_with_resume (counting N) opts dest (w, 0)).2.1 ≤ (with_defaults opts).max_attempts
  unfolding download_with_resume
  requests_bounded opts dest w =
      let o = with_defaults opts in
      let all = attempts_count o o.max_attempts 0 none dest (w, 0) in omega (arith, all)

-- ===== src/Agent/Download/Backoff.antt =====
-- The waits of DownloadWithResume in internal/agent/download.go with the options of the agent, which
-- leaves them all unset.
use edge_fleet_operator_demo.Base.{
  ℕ, zero, suc, ◌+◌, ◌<◌, ◌≡◌, ◌≢◌, refl, sym, ap, ◌∙◌, inl, inr, true, Option, Option-cases, none,
  some, arith,
}
use edge_fleet_operator_demo.Base.Words.{i64_ltb}
use edge_fleet_operator_demo.Agent.Download.{
  Bytes, DownloadOptions, with_defaults, Network, DownloadError, complete, panicked, backoff_of,
  wait_before, download_once, attempts, download_with_resume,
}

abbrev pub unset_options : DownloadOptions
unset_options = record { max_attempts = 0; base_backoff = 0; max_backoff = 0; attempt_timeout = 0 }

-- The backoff doubles from half a second, and is positive.
pub backoff_positive :
    (n : ℕ) → n < 5 → i64_ltb 0 (backoff_of (with_defaults unset_options) n) ≡ true
unfolding backoff_of with_defaults
backoff_positive zero h = refl
backoff_positive (suc zero) h = refl
backoff_positive (suc (suc zero)) h = refl
backoff_positive (suc (suc (suc zero))) h = refl
backoff_positive (suc (suc (suc (suc zero)))) h = refl
backoff_positive (suc (suc (suc (suc (suc n))))) h = absurd (omega (arith, h))

module _ (N : Network) where
  abbrev options : DownloadOptions
  options = with_defaults unset_options

  wait_fine : (made : ℕ) (w : N.World) → made < 6 → (wait_before N options made w).0 ≢ some panicked
  unfolding wait_before
  wait_fine zero w h e = cc e
  wait_fine (suc n) w h e =
      let fine = backoff_positive n (omega (arith, h)) in ground (arith, fine, e)

  attempts_fine :
      (left made : ℕ) (last : Option DownloadError) (dest : Option Bytes) (w : N.World)
      → made + left < 6
      → (attempts N options left made last dest w).0 ≢ panicked
  unfolding attempts
  attempts_fine zero made last dest w h e = cc e
  attempts_fine (suc left) made last dest w h e =
      let whole = attempts N options (suc left) made last dest w in
      elim (Option-cases (wait_before N options made w).0) [
        | inr (r, stop) ↦
            let same : whole.0 ≡ r = rw (attempts, stop) refl in
            wait_fine made w (omega arith) (stop ∙ ap some (sym same ∙ e))
        | inl go ↦
            let s = download_once N options.attempt_timeout dest (wait_before N options made w).1 in
            elim (Option-cases s.0) [
              | inl ends ↦
                  let same : whole.0 ≡ complete = rw (attempts, go, ends) refl in cc (same, e)
              | inr (error, ends) ↦
                  let same : whole ≡ attempts N options left (suc made) (some error) s.1 s.2 =
                    rw (attempts, go, ends) refl in
                  attempts_fine left (suc made) (some error) s.1 s.2 (omega arith)
                    (sym (ap (λ r. r.0) same) ∙ e)
            ]
      ]

  -- The backoff is never zero or negative, so that the random number below it is drawn safely.
  pub download_fine :
      (dest : Option Bytes) (w : N.World)
      → (download_with_resume N unset_options dest w).0 ≢ panicked
  unfolding download_with_resume with_defaults
  download_fine dest w e = attempts_fine 5 0 none dest w (omega arith) e

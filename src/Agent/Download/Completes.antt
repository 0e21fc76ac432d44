-- ===== src/Agent/Download/Completes.antt =====
-- DownloadWithResume of internal/agent/download.go against a server that answers.
use Prim.Native.String.{len}
use mathlib.Core.Path.{subst⁻¹}
use text.Mathlib.TextLemmas.{nil-append}
use text.Mathlib.TextPositions.{len-append}
use edge_fleet_operator_demo.Base.{
  ℕ, zero, suc, ◌+◌, ◌≤◌, ◌<◌, ◌≡◌, refl, sym, ap, ◌∙◌, ◌⊎◌, inl, inr, Bool, true, false, Option,
  none, some, ◌<>◌, arith,
}
use edge_fleet_operator_demo.Base.Words.{i64_ltb}
use edge_fleet_operator_demo.Agent.Download.{
  Bytes, DownloadOptions, with_defaults, reply, Network, DownloadError, Downloaded, complete,
  range_rejected, offset_of, backoff_of, save, receive, download_once, wait_before, attempts,
  download_with_resume,
}
use edge_fleet_operator_demo.Agent.Download.Backoff.{unset_options, backoff_positive}
use edge_fleet_operator_demo.Agent.Download.Resume.{drop, drop-append, IsPart}

-- A server of one image that answers every request in full, as RFC 9110 has it: all of the image
-- without a range, the rest of it from an offset within, and 416 from an offset past its end. The
-- file can be opened, and the download is not cancelled.
pub record IsReliable (N : Network) (image : Bytes) : Type 0 where
  pub url : N.bad_url ≡ false
  pub opened : (w : N.World) → (N.opens w).0 ≡ true
  pub not_cancelled : (t : ℕ) (w : N.World) → (N.wait t w).0 ≡ false
  pub whole : (t : ℕ) (w : N.World) → (N.fetch t 0 w).0 ≡ reply 200 image true
  pub ranged :
      (t n : ℕ) (w : N.World)
      → 0 < n
      → n < len image
      → (N.fetch t n w).0 ≡ reply 206 (drop n image) true
  pub past_end :
      (t n : ℕ) (w : N.World)
      → 0 < n
      → len image ≤ n
      → (body : Bytes) × (b : Bool) × ((N.fetch t n w).0 ≡ reply 416 body b)

module _ (N : Network) (image : Bytes) (good : IsReliable N image) where
  abbrev Got : Option DownloadError × Option Bytes × N.World → Type 0
  Got s = (s.0 ≡ none) × (s.1 ≡ some image)

  saved :
      (start body : Bytes) (dest : Option Bytes) (w : N.World)
      → start <> body ≡ image
      → Got (save N start body true dest w)
  unfolding save
  saved start body dest w e = let opened = good.opened w in rw (save, opened) (refl, ap some e)

  once :
      (t : ℕ) (dest : Option Bytes) (w : N.World)
      → download_once N t dest w
        ≡ receive N (N.fetch t (offset_of dest) w).0 dest (N.fetch t (offset_of dest) w).1
  unfolding download_once
  once t dest w = let url = good.url in rw (download_once, url) refl

  once_whole :
      (t : ℕ) (dest : Option Bytes) (w : N.World)
      → offset_of dest ≡ 0
      → Got (download_once N t dest w)
  unfolding receive
  once_whole t dest w e =
      let answer : (N.fetch t (offset_of dest) w).0 ≡ reply 200 image true =
        ap (λ n. (N.fetch t n w).0) e ∙ good.whole t w in
      rw (once t dest w, answer) (saved "" image dest _ (nil-append image))

  once_rest :
      (t : ℕ) (c rest : Bytes) (w : N.World)
      → image ≡ c <> rest
      → 0 < len c
      → 0 < len rest
      → Got (download_once N t (some c) w)
  unfolding receive offset_of
  once_rest t c rest w e some_there some_left =
      let total : len image ≡ len c + len rest = ap len e ∙ len-append c rest in
      let answer = good.ranged t (len c) w some_there (omega (arith, total, some_left)) in
      let tail : drop (len c) image ≡ rest = ap (drop (len c)) e ∙ drop-append c rest in
      rw (once t (some c) w, answer)
        (saved c (drop (len c) image) (some c) _ (ap (λ b. c <> b) tail ∙ sym e))

  once_past :
      (t : ℕ) (c : Bytes) (w : N.World)
      → 0 < len c
      → len image ≤ len c
      → let s = download_once N t (some c) w in (s.0 ≡ some range_rejected) × (s.1 ≡ none)
  unfolding receive offset_of
  once_past t c w some_there all_there =
      let (body, b, answer) = good.past_end t (len c) w some_there all_there in
      rw (once t (some c) w, answer) (refl, refl)

  abbrev pub Completed : Downloaded × Option Bytes × N.World → Type 0
  Completed r = (r.0 ≡ complete) × (r.1 ≡ some image)

  -- An attempt that is not waited for in vain, and brings the image.
  attempted :
      (o : DownloadOptions) (left made : ℕ) (last : Option DownloadError) (dest : Option Bytes)
      (w : N.World)
      → (wait_before N o made w).0 ≡ none
      → Got (download_once N o.attempt_timeout dest (wait_before N o made w).1)
      → Completed (attempts N o (suc left) made last dest w)
  unfolding attempts
  attempted o left made last dest w go (fine, is) = rw (attempts, go, fine) (refl, is)

  waits :
      (o : DownloadOptions) (n : ℕ) (w : N.World)
      → i64_ltb 0 (backoff_of o n) ≡ true
      → (wait_before N o (suc n) w).0 ≡ none
  unfolding wait_before
  waits o n w positive =
      let stopped = good.not_cancelled in rw (wait_before, positive, stopped _ _) refl

  -- From a file that is the whole image already, the second attempt starts over.
  starts_over :
      (o : DownloadOptions) (left : ℕ) (last : Option DownloadError) (c : Bytes) (w : N.World)
      → i64_ltb 0 (backoff_of o 0) ≡ true
      → 0 < len c
      → len image ≤ len c
      → Completed (attempts N o (suc (suc left)) 0 last (some c) w)
  unfolding attempts wait_before
  starts_over o left last c w positive some_there all_there =
      let s = download_once N o.attempt_timeout (some c) w in
      let (refused, gone) = once_past o.attempt_timeout c w some_there all_there in
      let again : Completed (attempts N o (suc left) 1 (some range_rejected) none s.2) =
        attempted o left 1 (some range_rejected) none s.2 (waits o 0 s.2 positive)
          (once_whole o.attempt_timeout none _ refl) in
      let same : attempts N o (suc (suc left)) 0 last (some c) w
          ≡ attempts N o (suc left) 1 (some range_rejected) none s.2 =
        rw (attempts, refused)
          (ap (λ d. attempts N o (suc left) 1 (some range_rejected) d s.2) gone) in
      subst⁻¹ Completed same again

  zero_or_positive : (n : ℕ) → (n ≡ 0) ⊎ (0 < n)
  zero_or_positive zero = inl refl
  zero_or_positive (suc n) = inr (omega arith)

  -- With the options of the agent, a download that starts with no file or with a beginning of the
  -- image, be it all of it, ends with the whole image.
  pub download_completes :
      (dest : Option Bytes) (w : N.World)
      → IsPart image dest
      → Completed (download_with_resume N unset_options dest w)
  unfolding download_with_resume with_defaults wait_before offset_of
  download_completes none w part =
      let o = with_defaults unset_options in
      attempted o 4 0 none none w refl (once_whole o.attempt_timeout none w refl)
  download_completes (some c) w (rest, e) =
      let o = with_defaults unset_options in
      elim (zero_or_positive (len c)) [
        | inl empty ↦
            attempted o 4 0 none (some c) w refl (once_whole o.attempt_timeout (some c) w empty)
        | inr some_there ↦ elim (zero_or_positive (len rest)) [
          | inr some_left ↦
              attempted o 4 0 none (some c) w refl
                (once_rest o.attempt_timeout c rest w e some_there some_left)
          | inl none_left ↦
              let total : len image ≡ len c + len rest = ap len e ∙ len-append c rest in
              starts_over o 3 none c w (backoff_positive 0 (omega arith)) some_there
                (omega (arith, total, none_left))
        ]
      ]

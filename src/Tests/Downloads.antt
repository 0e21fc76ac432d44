-- ===== src/Tests/Downloads.antt =====
-- The download's theorem on a transfer that was cut short.
use text.Mathlib.TextLemmas.{append-nil}
use edge_fleet_operator_demo.Base.{ℕ, ◌≡◌, refl, sym, true, false, some, arith}
use edge_fleet_operator_demo.Agent.Download.{
  Bytes, DownloadOptions, reply, Network, complete, download_with_resume,
}
use edge_fleet_operator_demo.Base.{none, ◌≤◌}
use edge_fleet_operator_demo.Agent.Download.{with_defaults}
use edge_fleet_operator_demo.Base.{◌==◌, ltb, if◌then◌else◌}
use edge_fleet_operator_demo.Agent.Download.Backoff.{unset_options}
use edge_fleet_operator_demo.Agent.Download.Completes.{IsReliable, download_completes}
use Prim.Native.String.{len}
use edge_fleet_operator_demo.Agent.Download.Requests.{counting, requests_bounded}
use edge_fleet_operator_demo.Agent.Download.Resume.{drop, Serves, IsPart, download-IsPart}

abbrev image : Bytes
image = "firmware"

-- A server that answers every request from the offset on.
abbrev pub network : Network
network = record {
  World = Unit;
  bad_url = false;
  fetch = λ _ n w. (reply 206 (drop n image) true, w);
  opens = λ w. (true, w);
  random_below = λ _ w. (0, w);
  wait = λ _ w. (false, w);
}

honest : (t n : ℕ) (w : network.World) → Serves image n (network.fetch t n w).0
honest t n w =
    (λ _. ("", sym (append-nil (drop n image)), λ _. refl), λ h. absurd (omega (arith, h)))

abbrev options : DownloadOptions
options = record { max_attempts = 0; base_backoff = 0; max_backoff = 0; attempt_timeout = 0 }

download-IsPart_example :
    let s = download_with_resume network options (some "firm") tt in
    IsPart image s.1 × (s.0 ≡ complete → s.1 ≡ some image)
download-IsPart_example =
    download-IsPart network image honest options (some "firm") tt ("ware", refl)

requests_bounded_example :
    (download_with_resume (counting network) options none (tt, 0)).2.1
    ≤ (with_defaults options).max_attempts
requests_bounded_example = requests_bounded network options none tt

-- A server that answers as RFC 9110 has it, with 416 at the end of the image.
abbrev pub precise : Network
precise = record {
  World = Unit;
  bad_url = false;
  fetch = λ _ n w. (
    if n == 0
        then reply 200 image true
        else if ltb n (len image)
        then reply 206 (drop n image) true
        else reply 416 "" true,
    w,
  );
  opens = λ w. (true, w);
  random_below = λ _ w. (0, w);
  wait = λ _ w. (false, w);
}

pub precise-IsReliable : IsReliable precise image
precise-IsReliable = record {
  url = refl;
  opened = λ w. refl;
  not_cancelled = λ t w. refl;
  whole = λ t w. refl;
  ranged = λ t n w some_there within. ground arith;
  past_end = λ t n w some_there past. ("", true, ground arith);
}

-- The file is the whole image already.
download_completes_example :
    let r = download_with_resume precise unset_options (some image) tt in
    (r.0 ≡ complete) × (r.1 ≡ some image)
download_completes_example =
    download_completes precise image precise-IsReliable (some image) tt ("", refl)

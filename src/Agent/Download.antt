-- ===== src/Agent/Download.antt =====
-- internal/agent/download.go: the download that goes on where an earlier attempt stopped.
pub mod Resume
pub mod Backoff
pub mod Requests
pub mod Completes
use Prim.Native.String.{len}
use edge_fleet_operator_demo.Base.{
  String, ◌<>◌, ℕ, zero, suc, ◌+◌, ◌*◌, ◌/◌, ◌%◌, Bool, true, false, ◌||◌, Option, none, some, List,
  [], ◌∷◌, ◌++◌, length, ◌==◌, if◌then◌else◌,
}
use edge_fleet_operator_demo.Base.Words.{i64_add, i64_ltb, i64_mod}

-- The bytes of a file, as a text; `len` counts them.
abbrev pub Bytes : Type 0
Bytes = String

-- Durations are int64 nanoseconds, as bit patterns; the number of attempts is not negative.
pub record DownloadOptions : Type 0 where
  pub max_attempts : ℕ
  pub base_backoff : ℕ
  pub max_backoff : ℕ
  pub attempt_timeout : ℕ

abbrev or_default : ℕ → ℕ → ℕ
or_default n default = if n == 0 then default else n

-- withDefaults
unfoldable pub with_defaults : DownloadOptions → DownloadOptions
with_defaults o = record {
  max_attempts = or_default o.max_attempts 5;
  base_backoff = or_default o.base_backoff 500000000;
  max_backoff = or_default o.max_backoff 15000000000;
  attempt_timeout = or_default o.attempt_timeout 120000000000;
}

-- What httpc.Do and io.Copy come to: no answer in time; or an answer with a status, the bytes of the
-- body that reach the file, and whether the copy ends without an error.
pub data Reply : Type 0 where
  unreachable : Reply
  reply : ℕ → Bytes → Bool → Reply

-- The server, the network, the clock and the random source. An offset of 0 asks without a Range
-- header; `wait` answers whether the context is done before the time is over.
pub record Network : Type 1 where
  pub World : Type 0
  pub bad_url : Bool
  pub fetch : ℕ → ℕ → World → Reply × World
  pub opens : World → Bool × World
  pub random_below : ℕ → World → ℕ × World
  pub wait : ℕ → World → Bool × World

pub data DownloadError : Type 0 where
  bad_request no_answer open_failed range_rejected unexpected_status interrupted : DownloadError

-- How the download ends: complete, given up with the last error, cancelled while it waits; or a
-- random number below a bound that is not positive panics.
pub data Downloaded : Type 0 where
  complete : Downloaded
  gave_up : Option DownloadError → Downloaded
  cancelled : Downloaded
  panicked : Downloaded

-- The size of the file, 0 if there is none.
unfoldable pub offset_of : Option Bytes → ℕ
offset_of none = 0
offset_of (some b) = len b

abbrev contents : Option Bytes → Bytes
contents none = ""
contents (some b) = b

-- `<<` on a Duration.
abbrev pub shift_left : ℕ → ℕ → ℕ
shift_left d zero = d
shift_left d (suc n) = shift_left d n * 2 % i64_mod

-- The backoff before an attempt, from the number of the attempts before the last one.
pub backoff_of : DownloadOptions → ℕ → ℕ
backoff_of o n =
    let shifted = shift_left o.base_backoff n in
    if i64_ltb shifted o.max_backoff then shifted else o.max_backoff

module _ (N : Network) where
  open N use {World, bad_url, fetch, opens, random_below, wait}

  -- The copy into the file, which starts with some bytes of it.
  unfoldable pub save :
      Bytes → Bytes → Bool → Option Bytes → World → Option DownloadError × Option Bytes × World
  save start body whole dest w =
      let (opened, w') = opens w in
      elim opened [
        | false ↦ (some open_failed, dest, w')
        | true ↦ (if whole then none else some interrupted, some (start <> body), w')
      ]

  -- The switch on the status.
  unfoldable pub receive :
      Reply → Option Bytes → World → Option DownloadError × Option Bytes × World
  unfolding save
  receive unreachable dest w = (some no_answer, dest, w)
  receive (reply status body whole) dest w =
      if status == 206
      then save (contents dest) body whole dest w
      else if status == 200
      then save "" body whole dest w
      else if status == 416
      then (some range_rejected, none, w)
      else (some unexpected_status, dest, w)

  -- downloadOnce
  unfoldable pub download_once :
      ℕ → Option Bytes → World → Option DownloadError × Option Bytes × World
  unfolding receive offset_of
  download_once timeout dest w = elim bad_url [
    | true ↦ (some bad_request, dest, w)
    | false ↦ let (r, w') = fetch timeout (offset_of dest) w in receive r dest w'
  ]

  -- The wait before an attempt, by the number of attempts made: how the download ends in it, if it
  -- does.
  unfoldable pub wait_before : DownloadOptions → ℕ → World → Option Downloaded × World
  unfolding backoff_of
  wait_before o zero w = (none, w)
  wait_before o (suc n) w = elim (i64_ltb 0 (backoff_of o n)) [
    | false ↦ (some panicked, w)
    | true ↦
        let (r, w') = random_below (backoff_of o n) w in
        let (stopped, w2) = wait (i64_add (backoff_of o n / 2) r) w' in
        (if stopped then some cancelled else none, w2)
  ]

  -- The loop: attempts left, and the attempts made.
  unfoldable pub attempts :
      DownloadOptions
      → ℕ
      → ℕ
      → Option DownloadError
      → Option Bytes
      → World
      → Downloaded × Option Bytes × World
  unfolding wait_before download_once
  attempts o zero made last dest w = (gave_up last, dest, w)
  attempts o (suc left) made last dest w =
      let (ended, w') = wait_before o made w in
      elim ended [
        | some r ↦ (r, dest, w')
        | none ↦
            let (e, left_over, w2) = download_once o.attempt_timeout dest w' in
            elim e [
              | none ↦ (complete, left_over, w2)
              | some error ↦ attempts o left (suc made) (some error) left_over w2
            ]
      ]

  -- DownloadWithResume
  unfoldable pub download_with_resume :
      DownloadOptions → Option Bytes → World → Downloaded × Option Bytes × World
  unfolding attempts
  download_with_resume opts dest w =
      let o = with_defaults opts in attempts o o.max_attempts 0 none dest w

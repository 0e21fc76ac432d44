-- ===== src/Agent/Download/Resume.antt =====
-- DownloadWithResume of internal/agent/download.go: the file is a part of the image.
use text.Mathlib.TextLemmas.{append-nil, append_assoc, nil-append}
use mathlib.Core.Path.{subst}
use text.Mathlib.TextPositions.{len-append, slice-append_right}
use Prim.Native.String.{len, slice}
use edge_fleet_operator_demo.Base.{
  ℕ, zero, suc, ◌≡◌, sym, ap, ◌∙◌, inl, inr, Bool, true, Bool-cases, Option, Option-cases, none,
  some, ◌<>◌, ◌==◌, if◌then◌else◌, arith,
}
use edge_fleet_operator_demo.Agent.Download.{
  Bytes, DownloadOptions, with_defaults, Reply, unreachable, reply, Network, DownloadError,
  complete, range_rejected, unexpected_status, offset_of, save, receive, download_once, wait_before,
  attempts, download_with_resume,
}

-- The bytes from an offset on.
abbrev pub drop : ℕ → Bytes → Bytes
drop n b = slice b n (len b)

-- All of some bytes came, or a part that comes first.
abbrev pub Sends : Bytes → Bool → Bytes → Type 0
Sends body whole b = (rest : Bytes) × (b ≡ body <> rest) × (whole ≡ true → rest ≡ "")

-- A server of one image, as RFC 9110 has it: 206 brings the bytes from the offset on, and 200 all.
abbrev pub Serves : Bytes → ℕ → Reply → Type 0
Serves image offset unreachable = Unit
Serves image offset (reply status body whole) =
    (status ≡ 206 → Sends body whole (drop offset image)) × (status ≡ 200 → Sends body whole image)

-- The file is the beginning of the image, if there is one.
abbrev pub IsPart : Bytes → Option Bytes → Type 0
IsPart image none = Unit
IsPart image (some b) = (rest : Bytes) × (image ≡ b <> rest)

pub drop-append : (a b : Bytes) → drop (len a) (a <> b) ≡ b
drop-append a b = rw (len-append a b) (slice-append_right a b)

module _ (N : Network) (image : Bytes) where
  save-Part :
      (start body : Bytes) (whole : Bool) (dest : Option Bytes) (w : N.World) (rest : Bytes)
      → IsPart image dest
      → image ≡ start <> rest
      → Sends body whole rest
      → let r = save N start body whole dest w in IsPart image r.1 × (r.0 ≡ none → r.1 ≡ some image)
  unfolding save
  save-Part start body whole dest w rest part is (later, e, full) =
      let joined : image ≡ (start <> body) <> later =
        is ∙ ap (λ b. start <> b) e ∙ sym (append_assoc start body later) in
      let done : whole ≡ true → start <> body ≡ image =
        λ h. sym (joined ∙ ap (λ b. (start <> body) <> b) (full h) ∙ append-nil (start <> body)) in
      elim (Bool-cases (N.opens w).0) [
        | inr shut ↦ rw (save, shut) (part, λ h. absurd (cc h))
        | inl opened ↦ elim (Bool-cases whole) [
          | inl entire ↦ rw (save, opened, entire) ((later, joined), λ _. ap some (done entire))
          | inr cut ↦ rw (save, opened, cut) ((later, joined), λ h. absurd (cc h))
        ]
      ]

  resumed :
      (start body : Bytes) (whole : Bool) (rest : Bytes)
      → image ≡ start <> rest
      → Sends body whole (drop (len start) image)
      → Sends body whole rest
  resumed start body whole rest is sends =
      subst (Sends body whole) (ap (drop (len start)) is ∙ drop-append start rest) sends

  -- The switch, when a 206 goes on from the start that the file has.
  switch-Part :
      (status : ℕ) (body : Bytes) (whole : Bool) (start rest : Bytes) (dest : Option Bytes)
      (w : N.World)
      → IsPart image dest
      → image ≡ start <> rest
      → Serves image (len start) (reply status body whole)
      → let s =
          if status == 206
          then save N start body whole dest w
          else if status == 200
          then save N "" body whole dest w
          else if status == 416
          then (some range_rejected, none, w)
          else (some unexpected_status, dest, w) in
        IsPart image s.1 × (s.0 ≡ none → s.1 ≡ some image)
  switch-Part status body whole start rest dest w part is serves =
      elim (Bool-cases (status == 206)) [
        | inl e ↦ rw e (
            save-Part start body whole dest w rest part is
              (resumed start body whole rest is (serves.0 (ground arith))))
        | inr n ↦ elim (Bool-cases (status == 200)) [
          | inl e ↦
              rw (n, e)
                (save-Part "" body whole dest w image part (sym (nil-append image))
                  (serves.1 (ground arith)))
          | inr n2 ↦ elim (Bool-cases (status == 416)) [
            | inl e ↦ rw (n, n2, e) (tt, λ h. absurd (cc h))
            | inr n3 ↦ rw (n, n2, n3) (part, λ h. absurd (cc h))
          ]
        ]
      ]

  receive-Part :
      (r : Reply) (dest : Option Bytes) (w : N.World)
      → IsPart image dest
      → Serves image (offset_of dest) r
      → let s = receive N r dest w in IsPart image s.1 × (s.0 ≡ none → s.1 ≡ some image)
  unfolding receive offset_of
  receive-Part unreachable dest w part serves = (part, λ h. absurd (cc h))
  receive-Part (reply status body whole) none w part serves =
      switch-Part status body whole "" image none w tt (sym (nil-append image)) serves
  receive-Part (reply status body whole) (some b) w part serves =
      switch-Part status body whole b part.0 (some b) w part part.1 serves

  not_complete :
      (o : DownloadOptions) (made : ℕ) (w : N.World)
      → (wait_before N o made w).0 ≡ some complete
      → ⊥
  unfolding wait_before
  not_complete o zero w h = cc h
  not_complete o (suc n) w h = ground arith

  module _ (honest : (t n : ℕ) (w : N.World) → Serves image n (N.fetch t n w).0) where
    download_once-Part :
        (t : ℕ) (dest : Option Bytes) (w : N.World)
        → IsPart image dest
        → let s = download_once N t dest w in IsPart image s.1 × (s.0 ≡ none → s.1 ≡ some image)
    unfolding download_once
    download_once-Part t dest w part = elim (Bool-cases N.bad_url) [
      | inl bad ↦ rw (download_once, bad) (part, λ h. absurd (cc h))
      | inr good ↦
          rw (download_once, good)
            (receive-Part (N.fetch t (offset_of dest) w).0 dest (N.fetch t (offset_of dest) w).1
              part (honest t (offset_of dest) w))
    ]

    attempts-Part :
        (o : DownloadOptions) (left made : ℕ) (last : Option DownloadError) (dest : Option Bytes)
        (w : N.World)
        → IsPart image dest
        → let s = attempts N o left made last dest w in
          IsPart image s.1 × (s.0 ≡ complete → s.1 ≡ some image)
    unfolding attempts
    attempts-Part o zero made last dest w part = (part, λ h. absurd (cc h))
    attempts-Part o (suc left) made last dest w part =
        elim (Option-cases (wait_before N o made w).0) [
          | inr (r, stop) ↦
              rw (attempts, stop) (part, λ h. absurd (not_complete o made w (stop ∙ ap some h)))
          | inl go ↦
              let w' = (wait_before N o made w).1 in
              let once = download_once-Part o.attempt_timeout dest w' part in
              let s = download_once N o.attempt_timeout dest w' in
              elim (Option-cases s.0) [
                | inl e ↦ rw (attempts, go, e) (once.0, λ _. once.1 e)
                | inr (error, e) ↦
                    rw (attempts, go, e)
                      (attempts-Part o left (suc made) (some error) s.1 s.2 once.0)
              ]
        ]

    -- Against a server that has one image, a download that starts with no file or with the
    -- beginning of the image leaves no file or a beginning of the image, however it ends, so that
    -- it can be resumed; and if it reports success, the file is the whole image.
    pub download-IsPart :
        (opts : DownloadOptions) (dest : Option Bytes) (w : N.World)
        → IsPart image dest
        → let s = download_with_resume N opts dest w in
          IsPart image s.1 × (s.0 ≡ complete → s.1 ≡ some image)
    unfolding download_with_resume
    download-IsPart opts dest w part =
        attempts-Part (with_defaults opts) (with_defaults opts).max_attempts 0 none dest w part

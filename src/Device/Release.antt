-- ===== src/Device/Release.antt =====
-- The deletion path of internal/controller/edgedevice_controller.go: the finalizer goes last.
use mathlib.Core.List.{Memᴰ}
use mathlib.Core.Path.{subst⁻¹}
use edge_fleet_operator_demo.Base.{
  ℕ, String, ◌≡◌, ap, refl, sym, ◌⊎◌, inl, inr, Bool, true, false, Bool-cases, Option, Option-cases,
  none, some, List, [], ◌∷◌,
}
use edge_fleet_operator_demo.Api.{EdgeDevice}
use edge_fleet_operator_demo.Api.Client.{
  ApiError, not_found, already_exists, conflict, transient, ok, NamespacedName, Client,
}
use edge_fleet_operator_demo.Api.Recording.{
  Write, device, secret_deleted, Call, Recorded, recording,
}
use edge_fleet_operator_demo.Api.Machinery.{Machinery, IsLawful}
use edge_fleet_operator_demo.Device.Status.{Config, Clock}
use edge_fleet_operator_demo.Device.{
  device_finalizer, secret_key, revoke_credential, release, reconcile,
}

-- The secret is gone: it was deleted now, or it was not there.
abbrev pub Gone : Option ApiError → Type 0
Gone none = Unit
Gone (some e) = e ≡ not_found

-- The device with the finalizer taken away.
abbrev pub let_go : Machinery → EdgeDevice → EdgeDevice
let_go M dev = record dev { metadata = M.remove_finalizer dev.metadata device_finalizer }

abbrev pub deletion : EdgeDevice → Option ApiError → Call
deletion dev answer = record { write = secret_deleted (secret_key dev); answer = answer }

abbrev pub sent : EdgeDevice → Option ApiError → Call
sent dev answer = record { write = device dev; answer = answer }

abbrev is_device : Write → Bool
is_device (device _) = true
is_device _ = false

-- The calls of the deletion path, the last one first.
pub data Releases (M : Machinery) (dev : EdgeDevice) : List Call → Type 0 where
  idle : Releases M dev []
  holding : (b : Option ApiError) → Releases M dev (deletion dev b ∷ [])
  letting_go :
      (a b : Option ApiError)
      → Gone b
      → Releases M dev (sent (let_go M dev) a ∷ deletion dev b ∷ [])

not_deletion : (dev d : EdgeDevice) (a b : Option ApiError) → sent d a ≡ deletion dev b → ⊥
not_deletion dev d a b e = cc (ap (λ c. is_device c.write) e)

-- A device write of the deletion path.
last_write :
    (M : Machinery) (dev d : EdgeDevice) (a : Option ApiError) (calls : List Call)
    → Releases M dev calls
    → Memᴰ (sent d a) calls
    → (b : Option ApiError) × Gone b × (calls ≡ sent (let_go M dev) a ∷ deletion dev b ∷ [])
last_write M dev d a _ idle m = elim m [ ]
last_write M dev d a _ (holding b) (Memᴰ.head e) = absurd (not_deletion dev d a b e)
last_write M dev d a _ (holding b) (Memᴰ.tail m) = elim m [ ]
last_write M dev d a _ (letting_go c b gone) (Memᴰ.head e) =
    (b, gone, ap (λ x. sent (let_go M dev) x ∷ deletion dev b ∷ []) (sym (ap (λ x. x.answer) e)))
last_write M dev d a _ (letting_go c b gone) (Memᴰ.tail (Memᴰ.head e)) =
    absurd (not_deletion dev d a b e)
last_write M dev d a _ (letting_go c b gone) (Memᴰ.tail (Memᴰ.tail m)) = elim m [ ]

module _ (M : Machinery) (lawful : IsLawful M) (C : Client) where
  ignored :
      (error : ApiError)
      → (Gone (some error) × (M.ignore_not_found error ≡ none))
        ⊎ ((e : ApiError) × (M.ignore_not_found error ≡ some e))
  ignored not_found = inl (refl, lawful.ignore_not_found_lem not_found)
  ignored already_exists = inr (_, lawful.ignore_not_found_lem already_exists)
  ignored conflict = inr (_, lawful.ignore_not_found_lem conflict)
  ignored transient = inr (_, lawful.ignore_not_found_lem transient)

  revoke_answers :
      (dev : EdgeDevice) (w : C.World)
      → let answer = (C.delete_secret (secret_key dev) w).0 in
        let revoked = revoke_credential M (recording C) dev (record { inner = w; calls = [] }) in
        (Gone answer × (revoked.0 ≡ none)) ⊎ ((e : ApiError) × (revoked.0 ≡ some e))
  unfolding revoke_credential
  revoke_answers dev w = elim (Option-cases (C.delete_secret (secret_key dev) w).0) [
    | inl e ↦ rw (revoke_credential, e) (inl (tt, refl))
    | inr (error, e) ↦ rw (revoke_credential, e) (ignored error)
  ]

  pub release-Releases :
      (dev : EdgeDevice) (w : C.World)
      → Releases M dev (release M (recording C) dev (record { inner = w; calls = [] })).1.calls
  unfolding release revoke_credential
  release-Releases dev w =
      let s : Recorded C.World = record { inner = w; calls = [] } in
      let answer = (C.delete_secret (secret_key dev) w).0 in
      elim (Bool-cases (M.contains_finalizer dev.metadata device_finalizer)) [
        | inr free ↦ rw (release, free) idle
        | inl held ↦ elim (revoke_answers dev w) [
          | inl (gone, e) ↦ rw (release, held, e) (letting_go _ answer gone)
          | inr (error, e) ↦ rw (release, held, e) (holding answer)
        ]
      ]

  -- In a pass over a device that is being deleted, a write to the device object is the last write
  -- and takes the finalizer away, and the one other write, before it, is the deletion of the
  -- device's secret, which the server answered with success or NotFound.
  pub finalizer_last :
      (cfg : Config) (clock : Clock) (token : String) (req : NamespacedName) (w : C.World)
      (dev d : EdgeDevice) (t : ℕ) (a : Option ApiError)
      → (C.get_device req w).0 ≡ ok dev
      → dev.metadata.deletion_timestamp ≡ some t
      → let calls =
          (reconcile M
            (recording C)
            cfg
            clock
            token
            req
            (record { inner = w; calls = [] })).1.calls in
        Memᴰ (sent d a) calls
        → (b : Option ApiError) × Gone b × (calls ≡ sent (let_go M dev) a ∷ deletion dev b ∷ [])
  unfolding reconcile
  finalizer_last cfg clock token req w dev d t a found deleting =
      let start : Recorded C.World = record { inner = w; calls = [] } in
      let after : Recorded C.World = record { inner = (C.get_device req w).1; calls = [] } in
      let e : reconcile M (recording C) cfg clock token req start
          ≡ release M (recording C) dev after =
        simp (reconcile, found, deleting) in
      subst⁻¹
        (λ r.
          Memᴰ (sent d a) r.1.calls
          → (b : Option ApiError) × Gone b
            × (r.1.calls ≡ sent (let_go M dev) a ∷ deletion dev b ∷ []))
        e (last_write M dev d a _ (release-Releases dev (C.get_device req w).1))

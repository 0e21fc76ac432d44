-- ===== src/Device/Credentials.antt =====
-- The credential of a device in internal/controller/edgedevice_controller.go: what
-- ensureCredentialSecret writes, that it settles, and when the finalizer is taken away.
use mathlib.Core.List.{Memᴰ}
use mathlib.Core.Path.{subst⁻¹}
use edge_fleet_operator_demo.Base.{
  String, ◌≡◌, refl, ◌⊎◌, inl, inr, eq_refl, Bool-cases, Option, Option-cases, List, [], ◌∷◌, All,
  StringMap, lookup, lookup_or_empty, str_eq,
}
use edge_fleet_operator_demo.Api.{EdgeDevice}
use edge_fleet_operator_demo.Api.Client.{ApiError, ApiResult, ok, err, Secret, Client}
use edge_fleet_operator_demo.Api.Recording.{
  Write, secret_created, secret_updated, Call, Recorded, recording,
}
use edge_fleet_operator_demo.Api.Machinery.{Machinery}
use edge_fleet_operator_demo.Device.{
  cred_fingerprint_key, set_entry, secret_key, fingerprint, rotate, new_secret, secured, take_over,
  ensure_credential_secret,
}

lookup-set_entry : (k v : String) (m : StringMap) → lookup_or_empty k (set_entry k v m) ≡ v
unfolding set_entry lookup_or_empty lookup
lookup-set_entry k v [] = rw (lookup_or_empty, lookup, eq_refl k) refl
lookup-set_entry k v ((j, u) ∷ m) = elim (Bool-cases (str_eq j k)) [
  | inl same ↦ rw (same, lookup_or_empty, lookup, eq_refl k) refl
  | inr other ↦ rw (other, lookup_or_empty, lookup, other) (lookup-set_entry k v m)
]

-- A write of a secret that bears the fingerprint of the device; any other write.
abbrev pub Bears : EdgeDevice → Write → Type 0
Bears dev (secret_created s) = fingerprint s.metadata.annotations ≡ dev.metadata.uid
Bears dev (secret_updated s) = fingerprint s.metadata.annotations ≡ dev.metadata.uid
Bears dev _ = Unit

pub fingerprint-rotate :
    (dev : EdgeDevice) (token : String) (m : StringMap) (s : Secret)
    → fingerprint (rotate dev token m s).metadata.annotations ≡ dev.metadata.uid
unfolding fingerprint rotate
fingerprint-rotate dev token m s = lookup-set_entry cred_fingerprint_key dev.metadata.uid m

pub fingerprint-new_secret :
    (dev : EdgeDevice) (token : String)
    → fingerprint (new_secret dev token).metadata.annotations ≡ dev.metadata.uid
unfolding fingerprint new_secret lookup_or_empty lookup
fingerprint-new_secret dev token = refl

ApiResult-cases :
    {A : Type 0} (r : ApiResult A) → ((a : A) × (r ≡ ok a)) ⊎ ((e : ApiError) × (r ≡ err e))
ApiResult-cases (ok a) = inl (a, refl)
ApiResult-cases (err e) = inr (e, refl)

-- What one call of ensureCredentialSecret can add to the calls.
data Added (dev : EdgeDevice) (older : List Call) : List Call → Type 0 where
  silent : Added dev older older
  wrote :
      (s : Secret) (a : Option ApiError)
      → fingerprint s.metadata.annotations ≡ dev.metadata.uid
      → Added dev older (record { write = secret_created s; answer = a } ∷ older)
  renewed :
      (s : Secret) (a : Option ApiError)
      → fingerprint s.metadata.annotations ≡ dev.metadata.uid
      → Added dev older (record { write = secret_updated s; answer = a } ∷ older)

module _ (M : Machinery) (C : Client) where
  take_over-Added :
      (dev : EdgeDevice) (token : String) (existing : Secret) (s : Recorded C.World)
      → Added dev s.calls (take_over M (recording C) dev token existing s).1.calls
  unfolding take_over
  take_over-Added dev token existing s = elim (Option-cases existing.metadata.annotations) [
    | inl e ↦ rw (take_over, e) silent
    | inr (m, e) ↦
        rw (take_over, e)
          (renewed (rotate dev token m existing) _ (fingerprint-rotate dev token m existing))
  ]

  ensure-Added :
      (dev : EdgeDevice) (token : String) (s : Recorded C.World)
      → Added dev s.calls (ensure_credential_secret M (recording C) dev token s).1.calls
  unfolding ensure_credential_secret
  ensure-Added dev token s = elim (ApiResult-cases (C.get_secret (secret_key dev) s.inner).0) [
    | inl (existing, e) ↦
        elim (Bool-cases (str_eq (fingerprint existing.metadata.annotations) dev.metadata.uid)) [
          | inl same ↦ rw (ensure_credential_secret, e, same) silent
          | inr other ↦
              rw (ensure_credential_secret, e, other) (take_over-Added dev token existing _)
        ]
    | inr (error, e) ↦ elim (Bool-cases (M.is_not_found error)) [
      | inl gone ↦
          rw (ensure_credential_secret, e, gone)
            (wrote (new_secret dev token) _ (fingerprint-new_secret dev token))
      | inr other ↦ rw (ensure_credential_secret, e, other) silent
    ]
  ]

All-at : {A : Type 0} (P : A → Type 0) (xs : List A) (x : A) → Memᴰ x xs → All P xs → P x
All-at P [] x m h = elim m [ ]
All-at P (_ ∷ xs) x (Memᴰ.head e) h = subst⁻¹ P e h.0
All-at P (_ ∷ xs) x (Memᴰ.tail m) h = All-at P xs x m h.1

Added-Bears :
    (dev : EdgeDevice) (older newer : List Call)
    → Added dev older newer
    → All (λ c. Bears dev c.write) older
    → All (λ c. Bears dev c.write) newer
Added-Bears dev older _ silent h = h
Added-Bears dev older _ (wrote s a f) h = (f, h)
Added-Bears dev older _ (renewed s a f) h = (f, h)

abbrev pub fresh_record : {W : Type 0} → W → Recorded W
fresh_record w = record { inner = w; calls = [] }

-- One of the calls writes the secret, whatever the answer.
abbrev pub Writes : List Call → Secret → Type 0
Writes calls x =
    (a : Option ApiError) × (Memᴰ (record { write = secret_created x; answer = a }) calls
      ⊎ Memᴰ (record { write = secret_updated x; answer = a }) calls)

module _ (M : Machinery) (C : Client) where
  -- A secret that ensureCredentialSecret writes, new or renewed, bears the UID of the device; and
  -- when the server later answers with that secret, in any world, ensureCredentialSecret succeeds
  -- and does nothing but read it.
  pub credential_settles :
      (dev : EdgeDevice) (token token2 : String) (w w2 : C.World) (x : Secret)
      → Writes (ensure_credential_secret M (recording C) dev token (fresh_record w)).1.calls x
      → (C.get_secret (secret_key dev) w2).0 ≡ ok x
      → (fingerprint x.metadata.annotations ≡ dev.metadata.uid)
        × (ensure_credential_secret M C dev token2 w2
            ≡ (secured, (C.get_secret (secret_key dev) w2).1))
  unfolding ensure_credential_secret
  credential_settles dev token token2 w w2 x (a, written) found =
      let s = fresh_record w in
      let all = Added-Bears dev [] _ (ensure-Added M C dev token s) tt in
      let mark : fingerprint x.metadata.annotations ≡ dev.metadata.uid = elim written [
        | inl m ↦ All-at (λ c. Bears dev c.write) _ _ m all
        | inr m ↦ All-at (λ c. Bears dev c.write) _ _ m all
      ] in
      (mark, rw (ensure_credential_secret, found, mark, eq_refl dev.metadata.uid) refl)

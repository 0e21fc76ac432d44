-- ===== src/Device/Provision.antt =====
-- ensureCredentialSecret of internal/controller/edgedevice_controller.go, with no other writer.
use edge_fleet_operator_demo.Base.{
  ◌≡◌, refl, sym, ap, ◌∙◌, inl, inr, String, true, false, Bool-cases, Option, Option-cases, none,
  some, eq_refl, eq_iff, str_eq, StringMap,
}
use edge_fleet_operator_demo.Api.{EdgeDevice}
use edge_fleet_operator_demo.Api.Client.{
  ApiResult, ok, err, not_found, NamespacedName, Secret, Client,
}
use edge_fleet_operator_demo.Api.Faithful.{found_of, key_of, IsCurrent, IsFaithful}
use edge_fleet_operator_demo.Api.Machinery.{Machinery, IsLawful}
use edge_fleet_operator_demo.Device.{
  secret_key, fingerprint, rotate, new_secret, Ensured, secured, refused, ensured_of, take_over,
  ensure_credential_secret,
}
use edge_fleet_operator_demo.Device.Credentials.{fingerprint-rotate, fingerprint-new_secret}

new_key : (dev : EdgeDevice) (token : String) → key_of (new_secret dev token) ≡ secret_key dev
unfolding new_secret
new_key dev token = refl

new_uid : (dev : EdgeDevice) (token : String) → (new_secret dev token).metadata.uid ≡ ""
unfolding new_secret
new_uid dev token = refl

new_version :
    (dev : EdgeDevice) (token : String) → (new_secret dev token).metadata.resource_version ≡ 0
unfolding new_secret
new_version dev token = refl

rotate-IsCurrent :
    (dev : EdgeDevice) (token : String) (m : StringMap) (s : Secret)
    → IsCurrent (rotate dev token m s).metadata s.metadata
unfolding rotate
rotate-IsCurrent dev token m s = (refl, refl, refl, refl, refl, refl)

module _ (M : Machinery) (C : Client) (req : NamespacedName) (F : IsFaithful C req secret_key) where
  open F use {device_of, secret_of}

  -- The secret of the device bears its UID.
  abbrev pub Owned : C.World → Type 0
  Owned w =
      (s : Secret) × (secret_of w ≡ some s)
      × (fingerprint s.metadata.annotations ≡ (device_of w).metadata.uid)

  -- ensureCredentialSecret went through.
  pub record Provisioned (token : String) (w : C.World) : Type 0 where
    pub after : C.World
    pub goes : ensure_credential_secret M C (device_of w) token w ≡ (secured, after)
    pub device_kept : device_of after ≡ device_of w
    pub owned : Owned after

  -- The secret is missing, or has annotations.
  abbrev pub IsUsable : C.World → Type 0
  IsUsable w =
      (s : Secret) → secret_of w ≡ some s → (m : StringMap) × (s.metadata.annotations ≡ some m)

  -- The rest of ensureCredentialSecret, by what the secret was read to be.
  abbrev with_secret : EdgeDevice → String → ApiResult Secret × C.World → Ensured × C.World
  with_secret dev token r =
      let (found, w') = r in
      elim found [
        | ok existing ↦ elim (str_eq (fingerprint existing.metadata.annotations) dev.metadata.uid) [
          | true ↦ (secured, w')
          | false ↦ take_over M C dev token existing w'
        ]
        | err error ↦ elim (M.is_not_found error) [
          | false ↦ (refused error, w')
          | true ↦
              let (e, w2) = C.create_secret (new_secret dev token) w' in
              (
                elim e [ none ↦ secured | some lost ↦ ensured_of (M.ignore_already_exists lost) ],
                w2,
              )
        ]
      ]

  ensured :
      (token : String) (w : C.World) (o : Option Secret)
      → secret_of w ≡ o
      → ensure_credential_secret M C (device_of w) token w
        ≡ with_secret (device_of w) token (found_of o, w)
  unfolding ensure_credential_secret
  ensured token w o e =
      ap (with_secret (device_of w) token) (F.reads_secret w ∙ ap (λ o. (found_of o, w)) e)

  pub ensure_silent :
      (token : String) (w : C.World)
      → Owned w
      → ensure_credential_secret M C (device_of w) token w ≡ (secured, w)
  ensure_silent token w (s, there, mine) =
      ensured token w (some s) there
      ∙ rw (with_secret, mine, eq_refl (device_of w).metadata.uid) refl

  taken :
      (dev : EdgeDevice) (token : String) (s : Secret) (m : StringMap) (w : C.World)
      → s.metadata.annotations ≡ some m
      → take_over M C dev token s w ≡ (
        ensured_of (C.update_secret (rotate dev token m s) w).0,
        (C.update_secret (rotate dev token m s) w).1,
      )
  unfolding take_over
  taken dev token s m w e = rw (take_over, e) refl

  pub provision :
      (lawful : IsLawful M) (token : String) (w : C.World) → IsUsable w → Provisioned token w
  provision lawful token w usable = elim (Option-cases (secret_of w)) [
    | inl absent ↦
        let dev = device_of w in
        let made =
          F.creates_secret (new_secret dev token) w absent (new_key dev token) (new_uid dev token)
            (new_version dev token) in
        record {
          after = made.after;
          goes =
              ensured token w none absent
              ∙ rw (with_secret, lawful.is_not_found_lem not_found)
                  (ap
                    (λ r. (
                      elim r.0 as (λ _. Ensured) [
                        | none ↦ secured
                        | some lost ↦ ensured_of (M.ignore_already_exists lost)
                      ],
                      r.1,
                    ))
                    made.accepted);
          device_kept = made.other;
          owned = (
            made.secret,
            made.stored,
            ap fingerprint made.annotated
                ∙ fingerprint-new_secret dev token
                ∙ ap (λ d. d.metadata.uid) (sym made.other),
          );
        }
    | inr (s, there) ↦
        elim (Bool-cases (str_eq (fingerprint s.metadata.annotations) (device_of w).metadata.uid)) [
          | inl mine ↦
              let own : Owned w = (s, there, (eq_iff _ _).0 mine) in
              record {
                after = w;
                goes = ensure_silent token w own;
                device_kept = refl;
                owned = own;
              }
          | inr foreign ↦
              let (m, annotated) = usable s there in
              let dev = device_of w in
              let new = rotate dev token m s in
              let kept = F.updates_secret new s w there (rotate-IsCurrent dev token m s) in
              record {
                after = kept.after;
                goes =
                    ensured token w (some s) there
                    ∙ rw (with_secret, foreign)
                        (taken dev token s m w annotated
                          ∙ ap (λ r. (ensured_of r.0, r.1)) kept.accepted);
                device_kept = kept.other;
                owned = (
                  kept.secret,
                  kept.stored,
                  ap fingerprint kept.annotated
                      ∙ fingerprint-rotate dev token m s
                      ∙ ap (λ d. d.metadata.uid) (sym kept.other),
                );
              }
        ]
  ]

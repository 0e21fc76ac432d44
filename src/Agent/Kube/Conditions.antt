-- ===== src/Agent/Kube/Conditions.antt =====
-- SetCondition of internal/agent/kube.go: what is found in the status afterwards.
use edge_fleet_operator_demo.Base.{
  String, ◌≡◌, ◌≢◌, refl, ap, inl, inr, eq_iff, eq_refl, false, Bool-cases, Option, none, some,
  List, [], ◌∷◌, str_eq, if◌then◌else◌,
}
use edge_fleet_operator_demo.Agent.Kube.{Condition, DeviceStatus, renew, upsert, set_condition}

-- The first condition of a kind.
abbrev pub find : String → List Condition → Option Condition
find k [] = none
find k (c ∷ cs) = if str_eq c.kind k then some c else find k cs

-- A condition that took the place of an older one, if there was one: all of it is new, but the time
-- of the last transition stays when the status does.
abbrev pub Replaces : Option Condition → Condition → Condition → Type 0
Replaces none new c = c ≡ new
Replaces (some old) new c =
    (c ≡ record new { last_transition_time = c.last_transition_time })
    × (old.status ≡ new.status → c.last_transition_time ≡ old.last_transition_time)
    × (old.status ≢ new.status → c.last_transition_time ≡ new.last_transition_time)

renew-Replaces : (old new : Condition) → Replaces (some old) new (renew old new)
unfolding renew
renew-Replaces old new =
    let same = eq_iff old.status new.status in
    elim (Bool-cases (str_eq old.status new.status)) [
      | inl e ↦ rw e (refl, λ _. refl, λ ne. absurd (ne (same.0 e)))
      | inr n ↦ rw n (refl, λ e. absurd (cc (n, same.1 e)), λ _. refl)
    ]

upsert-same :
    (new : Condition) (cs : List Condition)
    → (c : Condition) × (find new.kind (upsert new cs) ≡ some c) × Replaces (find new.kind cs) new c
unfolding upsert renew
upsert-same new [] = (new, rw (eq_refl new.kind) refl, refl)
upsert-same new (old ∷ cs) = elim (Bool-cases (str_eq old.kind new.kind)) [
  | inl e ↦ rw (upsert, e) (renew old new, rw (eq_refl new.kind) refl, renew-Replaces old new)
  | inr n ↦ rw (upsert, n, n) (upsert-same new cs)
]

upsert-other :
    (new : Condition) (cs : List Condition) (k : String)
    → str_eq new.kind k ≡ false
    → find k (upsert new cs) ≡ find k cs
unfolding upsert renew
upsert-other new [] k off = rw off refl
upsert-other new (old ∷ cs) k off = elim (Bool-cases (str_eq old.kind new.kind)) [
  | inl e ↦
      let same : old.kind ≡ new.kind = (eq_iff old.kind new.kind).0 e in
      rw (upsert, e, same, off) refl
  | inr n ↦
      rw (upsert, n)
        (ap (λ o. if str_eq old.kind k then some old else o) (upsert-other new cs k off))
]

different : (a b : String) → a ≢ b → str_eq a b ≡ false
different a b ne = elim (Bool-cases (str_eq a b)) [
  | inl e ↦ absurd (ne ((eq_iff a b).0 e))
  | inr n ↦ n
]

-- After SetCondition the condition is found with what was given, and with the time of the old one
-- of its kind exactly if that had the same status; every other kind is found as before, and the
-- other fields of the status are unchanged.
pub set_condition_lem :
    (new : Condition) (st : DeviceStatus)
    → ((c : Condition) × (find new.kind (set_condition new st).conditions ≡ some c)
        × Replaces (find new.kind st.conditions) new c)
      × ((k : String)
          → new.kind ≢ k
          → find k (set_condition new st).conditions ≡ find k st.conditions)
      × (record (set_condition new st) { conditions = st.conditions } ≡ st)
unfolding set_condition
set_condition_lem new st = (
  upsert-same new st.conditions,
  λ k ne. upsert-other new st.conditions k (different new.kind k ne),
  refl,
)

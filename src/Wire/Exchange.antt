-- ===== src/Wire/Exchange.antt =====
-- A report of internal/agent/agent.go as it reaches the controllers: the agent decodes the status
-- that the server holds, changes it, and sends it back.
use mathlib.Core.List.{map}
use edge_fleet_operator_demo.Base.{
  ◌≡◌, refl, ap, String, Option, none, some, List, All, [], ◌∷◌, Bool-cases, inl, inr, eq_iff,
  eq_refl, str_eq, false, if◌then◌else◌,
}
use edge_fleet_operator_demo.Api.{
  EdgeDeviceStatus, Condition, ConditionStatus, holds, fails, unknown, status_eq,
}
use edge_fleet_operator_demo.Agent.Kube.{DeviceStatus, upsert, renew}
use edge_fleet_operator_demo.Wire.Json.{and_then}
use edge_fleet_operator_demo.Wire.Kube.{no_status, encode_status, decode_status}
use edge_fleet_operator_demo.Wire.Resource.{
  TimeFormat, IsFaithful, show_condition_status, marshal_status, unmarshal_status,
}
use edge_fleet_operator_demo.Wire.Resource.RoundTrip.{StoredCondition, Stored}
use edge_fleet_operator_demo.Wire.Agree.{
  seen_condition, seen_status, decode-marshal, unmarshal-encode,
}

-- The status that the controllers read after a report, if they can read it: the server stores the
-- status that it is sent.
abbrev pub exchange :
    TimeFormat → (DeviceStatus → DeviceStatus) → EdgeDeviceStatus → Option EdgeDeviceStatus
exchange F mutate st =
    and_then (decode_status (marshal_status F st) no_status)
      λ seen. unmarshal_status F (encode_status (mutate seen))

-- A mutation of what the agent sees is one of what the controllers see.
pub exchange_lem :
    (F : TimeFormat) (faithful : IsFaithful F) (mutate : DeviceStatus → DeviceStatus)
    (st new : EdgeDeviceStatus)
    → Stored st
    → Stored new
    → mutate (seen_status F st) ≡ seen_status F new
    → exchange F mutate st ≡ some new
exchange_lem F faithful mutate st new old_stored new_stored e =
    rw (decode-marshal F faithful st old_stored, e) (unmarshal-encode F faithful new new_stored)

-- SetCondition, on the conditions as the controllers see them.
abbrev pub renewed : Condition → Condition → Condition
renewed old new = record new {
  last_transition_time =
      if status_eq old.status new.status
      then old.last_transition_time
      else new.last_transition_time;
}

abbrev pub upserted : Condition → List Condition → List Condition
upserted new [] = new ∷ []
upserted new (old ∷ others) =
    if str_eq old.kind new.kind then renewed old new ∷ others else old ∷ upserted new others

-- The first condition of a kind.
abbrev pub first_of : String → List Condition → Option Condition
first_of k [] = none
first_of k (c ∷ cs) = if str_eq c.kind k then some c else first_of k cs

same_test :
    (a b : ConditionStatus)
    → str_eq (show_condition_status a) (show_condition_status b) ≡ status_eq a b
unfolding show_condition_status status_eq
same_test holds holds = refl
same_test holds fails = refl
same_test holds unknown = refl
same_test fails holds = refl
same_test fails fails = refl
same_test fails unknown = refl
same_test unknown holds = refl
same_test unknown fails = refl
same_test unknown unknown = refl

module _ (F : TimeFormat) (new : Condition) where
  seen-renewed :
      (old : Condition)
      → renew (seen_condition F old) (seen_condition F new) ≡ seen_condition F (renewed old new)
  unfolding renew
  seen-renewed old = elim (Bool-cases (status_eq old.status new.status)) [
    | inl e ↦ rw (same_test old.status new.status, e) refl
    | inr n ↦ rw (same_test old.status new.status, n) refl
  ]

  pub seen-upserted :
      (cs : List Condition)
      → upsert (seen_condition F new) (map (seen_condition F) cs)
        ≡ map (seen_condition F) (upserted new cs)
  unfolding upsert
  seen-upserted [] = refl
  seen-upserted (old ∷ cs) = elim (Bool-cases (str_eq old.kind new.kind)) [
    | inl e ↦ rw (upsert, e, seen-renewed old) refl
    | inr n ↦ rw (upsert, n, seen-upserted cs) refl
  ]

renewed-Stored :
    (old new : Condition)
    → StoredCondition old
    → StoredCondition new
    → StoredCondition (renewed old new)
renewed-Stored old new a b = elim (Bool-cases (status_eq old.status new.status)) [
  | inl e ↦ rw e (a.0, b.1)
  | inr n ↦ rw n (b.0, b.1)
]

pub upserted-Stored :
    (new : Condition) (cs : List Condition)
    → StoredCondition new
    → All StoredCondition cs
    → All StoredCondition (upserted new cs)
upserted-Stored new [] a h = (a, tt)
upserted-Stored new (old ∷ cs) a h = elim (Bool-cases (str_eq old.kind new.kind)) [
  | inl e ↦ rw e (renewed-Stored old new h.0 a, h.1)
  | inr n ↦ rw n (h.0, upserted-Stored new cs a h.1)
]

-- What is found afterwards: the condition that was set, with its status and reason, and those of
-- another kind as they were.
pub first_of-upserted :
    (new : Condition) (cs : List Condition)
    → (c : Condition) × (first_of new.kind (upserted new cs) ≡ some c)
      × (c.status ≡ new.status)
      × (c.reason ≡ new.reason)
first_of-upserted new [] = (new, rw (eq_refl new.kind) refl, refl, refl)
first_of-upserted new (old ∷ cs) = elim (Bool-cases (str_eq old.kind new.kind)) [
  | inl e ↦ rw e (renewed old new, rw (eq_refl new.kind) refl, refl, refl)
  | inr n ↦ rw (n, n) (first_of-upserted new cs)
]

pub first_of-upserted_ne :
    (new : Condition) (cs : List Condition) (k : String)
    → str_eq new.kind k ≡ false
    → first_of k (upserted new cs) ≡ first_of k cs
first_of-upserted_ne new [] k off = rw off refl
first_of-upserted_ne new (old ∷ cs) k off = elim (Bool-cases (str_eq old.kind new.kind)) [
  | inl e ↦
      let same : old.kind ≡ new.kind = (eq_iff old.kind new.kind).0 e in rw (e, same, off) refl
  | inr n ↦
      rw n (ap (λ o. if str_eq old.kind k then some old else o) (first_of-upserted_ne new cs k off))
]

-- ===== src/Tests/Wire.antt =====
-- The theorems on JSON, at sample devices.
use Prim.Native.String.{len}
use text.Mathlib.TextPositions.{len-append}
use edge_fleet_operator_demo.Base.{
  ℕ, zero, suc, ◌+◌, ◌-◌, ◌*◌, ◌/◌, ◌≡◌, ◌≢◌, refl, ap, str_eq, String, ◌<>◌, some, List, [], ◌∷◌,
  if◌then◌else◌, arith,
}
use edge_fleet_operator_demo.Api.{EdgeDeviceStatus, Condition}
use edge_fleet_operator_demo.Wire.Kube.{
  no_status, no_spec, encode_status, decode_status, set_spec_field,
}
use edge_fleet_operator_demo.Wire.Json.{read_struct}
use edge_fleet_operator_demo.Wire.Resource.{
  TimeFormat, IsWhole, IsFaithful, marshal_status, unmarshal_status, marshal_spec,
}
use edge_fleet_operator_demo.Wire.Resource.RoundTrip.{Stored}
use edge_fleet_operator_demo.Wire.Agree.{seen_status, seen_spec, tags_agree}
use edge_fleet_operator_demo.Wire.Exchange.{exchange, first_of}
use edge_fleet_operator_demo.Wire.Reports.{Verdict, report_reaches}
use edge_fleet_operator_demo.Wire.Mutations.{upgraded, reported}
use edge_fleet_operator_demo.Tests.{failed_device}
use edge_fleet_operator_demo.Tests.Devices.{config, clock, timeout_is}
use edge_fleet_operator_demo.Tests.Server.{machinery, machinery-IsLawful}

-- A text as long as the number of seconds.
abbrev ticks : ℕ → String
ticks zero = "."
ticks (suc n) = "." <> ticks n

abbrev tally_marks : TimeFormat
tally_marks = record {
  print = λ t. ticks (t / 1000000000);
  parse = λ s. some ((len s - 1) * 1000000000);
}

len-ticks : (n : ℕ) → len (ticks n) ≡ n + 1
len-ticks zero = refl
len-ticks (suc n) = omega (arith, len-append "." (ticks n), len-ticks n)

parse-print : (t : ℕ) → IsWhole t → tally_marks.parse (tally_marks.print t) ≡ some t
parse-print t whole =
    let n = len-ticks (t / 1000000000) in ap (λ (k : ℕ). some k) (omega (arith, n))

print-ne-empty : (t : ℕ) → tally_marks.print t ≢ ""
print-ne-empty t e = omega (arith, len-ticks (t / 1000000000), ap len e)

tally_marks-IsFaithful : IsFaithful tally_marks
tally_marks-IsFaithful = record { parse-print = parse-print; print-ne-empty = print-ne-empty }

stored : Stored failed_device.status
stored = record {
  conditions = ((omega arith, omega arith), tt);
  beat = omega arith;
  generation = omega arith;
}

tags_agree_example :
    let st = failed_device.status in
    (decode_status (marshal_status tally_marks st) no_status ≡ some (seen_status tally_marks st))
    × (unmarshal_status tally_marks (encode_status (seen_status tally_marks st)) ≡ some st)
    × (read_struct set_spec_field (marshal_spec failed_device.spec) no_spec
        ≡ some (seen_spec failed_device.spec))
tags_agree_example =
    tags_agree tally_marks tally_marks-IsFaithful failed_device.status failed_device.spec stored

finds : (cs : List Condition) (k : String) → machinery.find_status_condition cs k ≡ first_of k cs
finds [] k = refl
finds (c ∷ cs) k = ap (λ o. if str_eq c.kind k then some c else o) (finds cs k)

report_reaches_example :
    (st : EdgeDeviceStatus) × (exchange tally_marks
        (reported (upgraded "B") (seen_spec failed_device.spec) (tally_marks.print 105000000000) 1)
        failed_device.status
      ≡ some st)
    × Verdict machinery machinery-IsLawful config clock (upgraded "B") failed_device st
report_reaches_example =
    report_reaches machinery finds machinery-IsLawful tally_marks tally_marks-IsFaithful config
      clock (upgraded "B") (seen_spec failed_device.spec) 105000000000 1 failed_device
      (omega (arith, timeout_is)) (100000000000, refl, omega (arith, timeout_is)) stored
      (omega arith) (omega arith) refl

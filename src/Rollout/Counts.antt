-- ===== src/Rollout/Counts.antt =====
-- The fleet arithmetic of internal/controller/fleetrollout_controller.go against plain counts.
use mathlib.Core.List.{append-nil, append_assoc}
use edge_fleet_operator_demo.Base.{
  ℕ, suc, ◌+◌, ◌*◌, ◌≤◌, ◌<◌, ◌≡◌, refl, ap, String, Bool, true, not, ◌&&◌, ◌↔◌, List, [], ◌∷◌,
  ◌++◌, length, count_if, keep, arith, str_eq,
}
use edge_fleet_operator_demo.Base.Words.{i32_half, i32_mul, i32_leb, i32_ltb}
use edge_fleet_operator_demo.Api.{EdgeDevice, FleetRolloutSpec}
use edge_fleet_operator_demo.Api.Machinery.{Machinery}
use edge_fleet_operator_demo.Rollout.Fleet.{
  Tally, no_devices, device_failed, tally_device, tally_loop, tally, breaker_tripped, in_flight,
}

percent-product : (p t : ℕ) → p ≤ 100 → t ≤ 21474836 → p * t ≤ 2147483600
percent-product p t hp ht = grind arith

-- The breaker's test on numbers whose products stay below 2^31.
breaker_exact :
    (f t p : ℕ)
    → t ≤ 21474836
    → f ≤ t
    → p ≤ 100
    → ((i32_ltb 0 t && i32_leb (i32_mul p t) (i32_mul f 100)) ≡ true)
      ↔ ((0 < t) × (p * t ≤ 100 * f))
breaker_exact f t p ht hf hp =
    let m = percent-product p t hp ht in (λ h. ground arith, λ h. ground arith)

-- The four classes of a device, of which exactly one holds.
abbrev pub is_upgraded : String → EdgeDevice → Bool
is_upgraded version dev = str_eq dev.status.current_firmware_version version

abbrev pub is_aimed : String → EdgeDevice → Bool
is_aimed version dev =
    not (is_upgraded version dev) && str_eq dev.spec.desired_firmware_version version

abbrev pub is_untargeted : String → EdgeDevice → Bool
is_untargeted version dev =
    not (is_upgraded version dev) && not (str_eq dev.spec.desired_firmware_version version)

module _ (M : Machinery) (version : String) where
  abbrev pub is_failed : EdgeDevice → Bool
  is_failed dev = is_aimed version dev && device_failed M dev

  abbrev pub is_in_flight : EdgeDevice → Bool
  is_in_flight dev = is_aimed version dev && not (device_failed M dev)

  -- The loop adds to each counter the devices of its class.
  pub record Adds (t u : Tally) (devs : List EdgeDevice) : Type 0 where
    pub succeeded : u.succeeded ≡ t.succeeded + count_if (is_upgraded version) devs
    pub failed : u.failed ≡ t.failed + count_if is_failed devs
    pub targeted :
        u.targeted
        ≡ t.targeted
          + count_if (is_upgraded version) devs
          + count_if is_failed devs
          + count_if is_in_flight devs
    pub untargeted : u.untargeted ≡ t.untargeted ++ keep (is_untargeted version) devs

  -- No counter is near the end of its range.
  record HasRoom (t : Tally) (n : ℕ) : Type 0 where
    for_succeeded : t.succeeded + n < i32_half
    for_failed : t.failed + n < i32_half
    for_targeted : t.targeted + n < i32_half

  tally_device-HasRoom :
      (t : Tally) (d : EdgeDevice) (n : ℕ)
      → HasRoom t (suc n)
      → HasRoom (tally_device M version d t) n
  unfolding tally_device
  tally_device-HasRoom t d n h = ground arith

  tally_device-Adds :
      (t : Tally) (d : EdgeDevice) (n : ℕ)
      → HasRoom t (suc n)
      → Adds t (tally_device M version d t) (d ∷ [])
  unfolding tally_device
  tally_device-Adds t d n h = ground (arith, append-nil t.untargeted)

  Adds-cons :
      (t u v : Tally) (d : EdgeDevice) (ds : List EdgeDevice)
      → Adds t u (d ∷ [])
      → Adds u v ds
      → Adds t v (d ∷ ds)
  Adds-cons t u v d ds a b = record {
    succeeded = omega (arith, a.succeeded, b.succeeded);
    failed = omega (arith, a.failed, b.failed);
    targeted = omega (arith, a.targeted, b.targeted);
    untargeted = ground (
      arith,
      a.untargeted,
      b.untargeted,
      append_assoc t.untargeted (d ∷ []) (keep (is_untargeted version) ds),
      append-nil t.untargeted,
    );
  }

  tally_loop-Adds :
      (devs : List EdgeDevice) (t : Tally)
      → HasRoom t (length devs)
      → Adds t (tally_loop M version devs t) devs
  unfolding tally_loop
  tally_loop-Adds [] t h = ground (arith, append-nil t.untargeted)
  tally_loop-Adds (d ∷ ds) t h =
      Adds-cons t (tally_device M version d t) _ d ds (tally_device-Adds t d (length ds) h)
        (tally_loop-Adds ds (tally_device M version d t) (tally_device-HasRoom t d (length ds) h))

  tally-Adds :
      (devs : List EdgeDevice)
      → length devs < i32_half
      → Adds no_devices (tally M version devs) devs
  unfolding tally
  tally-Adds devs h =
      tally_loop-Adds devs no_devices (record {
        for_succeeded = omega arith;
        for_failed = omega arith;
        for_targeted = omega arith;
      })

  -- The classes share the fleet out.
  classes_partition :
      (devs : List EdgeDevice)
      → count_if (is_upgraded version) devs
          + count_if is_failed devs
          + count_if is_in_flight devs
          + length (keep (is_untargeted version) devs)
        ≡ length devs
  classes_partition [] = refl
  classes_partition (d ∷ ds) = ground (arith, classes_partition ds)

  -- For a fleet of fewer than 2^31 devices the counters are the numbers of devices that run the
  -- target version, of those that were given it and failed, and of both with those still under
  -- way; `untargeted` holds the others in order; and targeted - succeeded - failed in int32 is
  -- the number of devices under way.
  pub tally_counts :
      (devs : List EdgeDevice)
      → length devs < i32_half
      → let t = tally M version devs in
        (t.succeeded ≡ count_if (is_upgraded version) devs)
        × (t.failed ≡ count_if is_failed devs)
        × (t.targeted ≡ t.succeeded + t.failed + count_if is_in_flight devs)
        × (t.untargeted ≡ keep (is_untargeted version) devs)
        × (in_flight t ≡ count_if is_in_flight devs)
        × (t.targeted + length t.untargeted ≡ length devs)
  unfolding in_flight
  tally_counts devs h =
      let a = tally-Adds devs h in
      let parts = classes_partition devs in
      (
        omega (arith, a.succeeded),
        omega (arith, a.failed),
        omega arith,
        a.untargeted,
        omega arith,
        omega (arith, ap length a.untargeted),
      )

  -- For a fleet of at most 21,474,836 devices and a threshold of at most 100 percent, the int32
  -- arithmetic of the circuit breaker is exact: it trips exactly when some device was given the
  -- target version and the share of the failed among those reaches the threshold.
  pub breaker_tripped_iff :
      (devs : List EdgeDevice) (ro : FleetRolloutSpec)
      → length devs ≤ 21474836
      → ro.failure_threshold_percent ≤ 100
      → let aimed =
          count_if (is_upgraded version) devs
          + count_if is_failed devs
          + count_if is_in_flight devs in
        (breaker_tripped ro (tally M version devs) ≡ true)
        ↔ ((0 < aimed) × (ro.failure_threshold_percent * aimed ≤ 100 * count_if is_failed devs))
  unfolding breaker_tripped
  breaker_tripped_iff devs ro small percent =
      let a = tally-Adds devs (omega arith) in
      let parts = classes_partition devs in
      let aimed : (tally M version devs).targeted
          ≡ count_if (is_upgraded version) devs
            + count_if is_failed devs
            + count_if is_in_flight devs =
        omega (arith, a.targeted) in
      let bad : (tally M version devs).failed ≡ count_if is_failed devs = omega (arith, a.failed) in
      rw (← aimed, ← bad)
        (breaker_exact (tally M version devs).failed (tally M version devs).targeted
          ro.failure_threshold_percent (omega arith) (omega arith) percent)

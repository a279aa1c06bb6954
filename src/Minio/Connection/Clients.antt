-- ===== src/Minio/Connection/Clients.antt =====
-- The two clients that a reconnection swaps.
use stdlib_lab.Prelude.{
  ℕ, ◌≤◌, Bool, true, false, ◌||◌, ◌⊎◌, inl, inr, ◌≡◌, refl, arith, nat_eqb, nat_eqb_iff,
}
use stdlib_lab.Minio.Connection.{Retry, System, MonitorStep, RetryStep, OwnerStep, Step, Reached}

abbrev between_stores : Retry → Bool
between_stores Retry.half_stored = true
between_stores _ = false

abbrev before_stores : Retry → Bool
before_stores Retry.validated = true
before_stores _ = false

record IsPaired (s : System) : Type 0 where
  paired : (between_stores s.retry || nat_eqb s.client s.core) ≡ true
  current : (before_stores s.retry || nat_eqb s.client s.listed) ≡ true
  latest : (before_stores s.retry || between_stores s.retry) ≡ true → s.listed ≡ s.attempts
  known : s.core ≤ s.listed
  bounded : s.listed ≤ s.attempts

MonitorStep-IsPaired : {s t : System} → MonitorStep s t → IsPaired s → IsPaired t
MonitorStep-IsPaired (MonitorStep.tick s at) v = ground arith
MonitorStep-IsPaired (MonitorStep.healthy s at) v = ground arith
MonitorStep-IsPaired (MonitorStep.unhealthy s at) v = ground arith
MonitorStep-IsPaired (MonitorStep.send s at free) v = ground arith
MonitorStep-IsPaired (MonitorStep.skip s at full) v = ground arith
MonitorStep-IsPaired (MonitorStep.leave s at stop) v = ground arith

OwnerStep-IsPaired : {s t : System} → OwnerStep s t → IsPaired s → IsPaired t
OwnerStep-IsPaired (OwnerStep.signal s at) v = ground arith
OwnerStep-IsPaired (OwnerStep.wait s at monitor retry) v = ground arith

RetryStep-IsPaired : {s t : System} → RetryStep s t → IsPaired s → IsPaired t
RetryStep-IsPaired (RetryStep.stop_outer s at stop) v = ground arith
RetryStep-IsPaired (RetryStep.receive s at full) v = ground arith
RetryStep-IsPaired (RetryStep.stop_inner s at stop) v = ground arith
RetryStep-IsPaired (RetryStep.attempt s at go) v = ground arith
RetryStep-IsPaired (RetryStep.client_failed s at) v = ground arith
RetryStep-IsPaired (RetryStep.client_made s at) v = ground arith
RetryStep-IsPaired (RetryStep.core_failed s at) v = ground arith
RetryStep-IsPaired (RetryStep.core_made s at) v = ground arith
RetryStep-IsPaired (RetryStep.list_failed s at) v = ground arith
RetryStep-IsPaired (RetryStep.list_made s at) v = ground arith
RetryStep-IsPaired (RetryStep.store_client s at) v = ground arith
RetryStep-IsPaired (RetryStep.store_core s at) v = ground arith
RetryStep-IsPaired (RetryStep.awake s at) v = ground arith

Reached-IsPaired : {s : System} → Reached s → IsPaired s
Reached-IsPaired Reached.start = record {
  paired = refl;
  current = refl;
  latest = λ h. refl;
  known = omega arith;
  bounded = omega arith;
}
Reached-IsPaired (Reached.next r (Step.by_monitor st)) =
    MonitorStep-IsPaired st (Reached-IsPaired r)
Reached-IsPaired (Reached.next r (Step.by_retry st)) = RetryStep-IsPaired st (Reached-IsPaired r)
Reached-IsPaired (Reached.next r (Step.by_owner st)) = OwnerStep-IsPaired st (Reached-IsPaired r)
Reached-IsPaired (Reached.next r (Step.cancel s)) =
    let v = Reached-IsPaired r in
    record {
      paired = v.paired;
      current = v.current;
      latest = v.latest;
      known = v.known;
      bounded = v.bounded;
    }

half_or :
    (p : Retry) {b : Bool} → (between_stores p || b) ≡ true → (p ≡ Retry.half_stored) ⊎ (b ≡ true)
half_or Retry.half_stored h = inl refl
half_or Retry.outer h = inr h
half_or _ h = inr h

validated_or :
    (p : Retry) {b : Bool} → (before_stores p || b) ≡ true → (p ≡ Retry.validated) ⊎ (b ≡ true)
validated_or Retry.validated h = inl refl
validated_or Retry.outer h = inr h
validated_or _ h = inr h

same_number : {P : Type 0} {a b : ℕ} → P ⊎ (nat_eqb a b ≡ true) → P ⊎ (a ≡ b)
same_number (inl p) = inl p
same_number {a = a} {b} (inr h) = inr ((nat_eqb_iff a b).0 h)

-- In every order of the steps of the two goroutines and of the shutdown, both clients come from the same
-- attempt to connect, but between the two stores of a reconnection; the standard client comes from the
-- last attempt that has listed the buckets, but just before the two stores; and the core client comes
-- from no later one.
pub clients_match :
    {s : System}
    → Reached s
    → ((s.retry ≡ Retry.half_stored) ⊎ (s.client ≡ s.core))
      × ((s.retry ≡ Retry.validated) ⊎ (s.client ≡ s.listed))
      × (s.core ≤ s.listed)
      × (s.listed ≤ s.attempts)
clients_match {s} r =
    let v = Reached-IsPaired r in
    (
      same_number (half_or s.retry v.paired),
      same_number (validated_or s.retry v.current),
      v.known,
      v.bounded,
    )

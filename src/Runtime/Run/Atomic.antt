-- ===== src/Runtime/Run/Atomic.antt =====
-- impl/lnpl/interp.py: how `run_workflow` ends its transaction: by a commit where it completes, by a
-- rollback where it reports a failure or raises a RunError, and not at all where another exception leaves.
use linkly.Base.{ℕ, ◌≡◌, ◌≢◌, refl, sym, ap, Option, none, some}
use linkly.Base.Result.{Result, err}
use linkly.Base.Text.{Text}
use linkly.Runtime.World.{
  Items, Raised, run_error, other_error, World, Policy, Failure, raised, Report, empty_report, Flow,
  goes, stops, stuck, raises, deadline_from,
}
use linkly.Runtime.Run.{
  run_items, closed, close_by, close_faults, close_terms, respond_terms, first_raised, close_run,
  begin_run, run_workflow,
}
use linkly.Runtime.Run.Reach.{Reach, here, items-Reach}

-- How a run from s ends. Where `begin` raises, its exception leaves. Otherwise the run goes from the state
-- behind `begin` by steps, blocks and waits to a state m: it commits m and returns a report of no failure,
-- or rolls m back and returns a report of a failure, or rolls m back and raises a RunError, and in each
-- case an exception of the commit or the rollback takes the place of the result; or an exception
-- that is no RunError leaves m as it is, with the transaction open.
pub data Ends {S Err : Type 0} (w : World S Err) (policy : Policy) (s : S)
    : S → Option (Result (Raised Err) (Report Err)) → Type 0 where
  refused : (t : S) (e : Raised Err) → w.begin s ≡ (t, some e) → Ends w policy s t (some (err e))
  committed :
      (t m : S) (r : Report Err)
      → w.begin s ≡ (t, none)
      → Reach w policy (deadline_from policy.timeout (w.now s)) t m
      → r.failed ≡ none
      → Ends w policy s
          (w.commit m).0
          (some (closed w policy (deadline_from policy.timeout (w.now s)) (w.commit m).1 r))
  failed :
      (t m : S) (r : Report Err) (f : Text × Failure Err)
      → w.begin s ≡ (t, none)
      → Reach w policy (deadline_from policy.timeout (w.now s)) t m
      → r.failed ≡ some f
      → Ends w policy s
          (w.rollback m).0
          (some (closed w policy (deadline_from policy.timeout (w.now s)) (w.rollback m).1 r))
  thrown :
      (t m : S) (e : Err)
      → w.begin s ≡ (t, none)
      → Reach w policy (deadline_from policy.timeout (w.now s)) t m
      → Ends w policy s (w.rollback m).0 (
          some (
            err (
              first_raised w policy
                (deadline_from policy.timeout (w.now s))
                (w.rollback m).1
                (run_error e))))
  escaped :
      (t m : S) (e : Err)
      → w.begin s ≡ (t, none)
      → Reach w policy (deadline_from policy.timeout (w.now s)) t m
      → Ends w policy s m (some (err (other_error e)))

module _ {S Err : Type 0} (w : World S Err) (policy : Policy) (s : S) where
  abbrev limit : Option ℕ
  limit = deadline_from policy.timeout (w.now s)

  module _ (t m : S) (begun : w.begin s ≡ (t, none)) (reached : Reach w policy limit t m) where
    close_by-Ends :
        (f : Option (Text × Failure Err)) (r : Report Err)
        → (f ≡ none → r.failed ≡ none)
        → let out = close_by w policy limit f (m, r) in Ends w policy s out.0 (some out.1)
    close_by-Ends none r clean = committed t m r begun reached (clean refl)
    close_by-Ends (some f) r clean = failed t m _ f begun reached refl

    close_faults-Ends :
        (fault : Option (Text × Raised Err)) (r : Report Err)
        → r.failed ≡ none
        → let out = close_faults w policy limit fault (m, r) in Ends w policy s out.0 (some out.1)
    close_faults-Ends none r clean = close_by-Ends none r (λ h. clean)
    close_faults-Ends (some (name, run_error e)) r clean =
        close_by-Ends (some (name, raised e)) r (λ h. absurd (cc h))
    close_faults-Ends (some (name, other_error e)) r clean = escaped t m e begun reached

    close_terms-Ends :
        (f : Option (Text × Failure Err)) (r : Report Err)
        → f ≡ r.failed
        → let out = close_terms w policy limit f (m, r) in Ends w policy s out.0 (some out.1)
    close_terms-Ends (some f) r e = close_by-Ends (some f) r (λ h. absurd (cc h))
    close_terms-Ends none r e =
        close_faults-Ends (respond_terms w policy limit r.finished m) r (sym e)

    close_run-Ends :
        (r : Report Err) (flow : Flow Err) (out : Result (Raised Err) (Report Err))
        → (close_run w policy limit ((m, r), flow)).1 ≡ some out
        → Ends w policy s (close_run w policy limit ((m, r), flow)).0 (some out)
    close_run-Ends r (raises (run_error x)) out e = rw (sym e) (thrown t m x begun reached)
    close_run-Ends r (raises (other_error x)) out e = rw (sym e) (escaped t m x begun reached)
    close_run-Ends r stuck out e = absurd (cc e)
    close_run-Ends r stops out e = rw (sym e) (close_terms-Ends r.failed r refl)
    close_run-Ends r goes out e = rw (sym e) (close_terms-Ends r.failed r refl)

    close_run-returns :
        (r : Report Err) (flow : Flow Err)
        → flow ≢ stuck
        → (out : Result (Raised Err) (Report Err)) × ((close_run w policy limit ((m, r), flow)).1
            ≡ some out)
    close_run-returns r (raises (run_error x)) h = (_, refl)
    close_run-returns r (raises (other_error x)) h = (err (other_error x), refl)
    close_run-returns r stuck h = absurd (h refl)
    close_run-returns r stops h = (_, refl)
    close_run-returns r goes h = (_, refl)

-- run_workflow returns or raises. If begin raises, that exception leaves. Otherwise the run goes from the
-- state behind begin by steps, blocks and waits to a state, and then either commits that state and reports
-- no failure, or rolls it back and reports a failure or raises a RunError, or leaves it neither committed
-- nor rolled back and raises an exception that is no RunError. An exception of the commit or of the
-- rollback takes the place of the result.
pub run_workflow-Ends :
    {S Err : Type 0} (w : World S Err) (policy : Policy) (items : Items) (s : S)
    → (final : S) × (out : Result (Raised Err) (Report Err)) × (run_workflow w policy items s
        ≡ (final, some out))
      × Ends w policy s final (some out)
unfolding run_workflow
run_workflow-Ends {S = S} {Err = Err} w policy items s = by_begin (w.begin s) refl
  where
    by_begin :
        (b : S × Option (Raised Err))
        → w.begin s ≡ b
        → (final : S) × (out : Result (Raised Err) (Report Err)) × (begin_run w policy items
              (w.now s)
              b
            ≡ (final, some out))
          × Ends w policy s final (some out)
    by_begin (t, some e) begun = (t, err e, refl, refused t e begun)
    by_begin (t, none) begun =
        let lim = deadline_from policy.timeout (w.now s) in
        let (reached, moves) = items-Reach w policy lim t items (t, empty_report Err) here in
        let looped = run_items w policy lim items (t, empty_report Err) in
        let (out, returned) =
          close_run-returns w policy s t looped.0.0 begun reached looped.0.1 looped.1 moves in
        let final_state = (close_run w policy lim looped).0 in
        (
          final_state,
          out,
          ap (λ (o : Option (Result (Raised Err) (Report Err))). (final_state, o)) returned,
          close_run-Ends w policy s t looped.0.0 begun reached looped.0.1 looped.1 out returned,
        )

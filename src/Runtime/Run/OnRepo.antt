-- ===== src/Runtime/Run/OnRepo.antt =====
-- impl/lnpl/interp.py: a run over a `FakeRepository` is atomic, but for an exception that is no RunError.
use linkly.Base.{
  ◌≤◌, ◌≡◌, ◌⊎◌, refl, sym, ap, none, some, List, [], ◌∷◌, length, arith, inl, inr, All,
}
use linkly.Base.Result.{Result, ok, err}
use linkly.Runtime.Repository.{Entry, Repo, RepoError, begin, rollback}
use linkly.Runtime.Repository.Heap.{Where, Where-map}
use linkly.Runtime.Repository.Copies.{Below}
use linkly.Runtime.Repository.Transaction.{IsValid, view, done}
use linkly.Runtime.Repository.Rollback.{rollback-restores, begin-grows}
use linkly.Runtime.World.{Items, Raised, other_error, World, Policy, Report, deadline_from}
use linkly.Runtime.Client.{State, Client, begun_state, repo_world}
use linkly.Runtime.Client.Clean.{Reachable, Clean, run_program-Clean}
use linkly.Runtime.Run.{run_workflow}
use linkly.Runtime.Run.Reach.{Reach, here, stepped, blocked, waited}
use linkly.Runtime.Run.Atomic.{Ends, refused, committed, failed, thrown, escaped, run_workflow-Ends}

module _ {Err : Type 0} where
  -- The run reports that it has completed.
  abbrev pub Completed : Result (Raised Err) (Report Err) → Type 0
  Completed out = (r : Report Err) × (out ≡ ok r) × (r.failed ≡ none)

  -- The run raises an exception that is no RunError.
  abbrev pub Escaped : Result (Raised Err) (Report Err) → Type 0
  Escaped out = (e : Err) × (out ≡ err (other_error e))

module _ {V X Err : Type 0} (c : Client V X Err) (policy : Policy) (s : State V X) where
  abbrev w : World (State V X) Err
  w = repo_world c

  begun-repo :
      (r : Result RepoError (Repo V)) (t : State V X)
      → begun_state c r s ≡ (t, none)
      → (r ≡ ok t.repo) × (t.held ≡ s.held)
  begun-repo (err e) t h = absurd (cc h)
  begun-repo (ok repo) t h = let same : record s { repo = repo } ≡ t = cc h in (cc same, cc same)

  refused-same :
      (r : Result RepoError (Repo V)) (t : State V X) (e : Raised Err)
      → begun_state c r s ≡ (t, some e)
      → s ≡ t
  refused-same (err e) t x h = cc h
  refused-same (ok repo) t x h = absurd (cc h)

  -- Rows that were there before the run are no dicts of its snapshot.
  older-Reachable :
      (t : Repo V) (held : List (Entry V))
      → length s.repo.heap ≤ length t.heap
      → All (Where (Below s.repo.heap)) held
      → All (Reachable c.text_value s.repo t t.heap) held
  older-Reachable t [] le h = tt
  older-Reachable t (e ∷ held) le h = (
    (Where-map (λ a b. inl b) e h.0, Where-map (λ a b. omega (arith, b, le)) e h.0),
    older-Reachable t held le h.1,
  )

  module _ (valid : IsValid s.repo) (older : All (Where (Below s.repo.heap)) s.held) where
    Reach-Clean :
        (t : State V X) {u : State V X}
        → w.begin s ≡ (t, none)
        → Reach w policy (deadline_from policy.timeout (w.now s)) t u
        → Clean c.text_value s.repo t.repo u.repo u.held
    Reach-Clean t begun here =
        let (opened, same) = begun-repo (begin s.repo) t begun in
        record {
          steps = done;
          holds = rw same (
              older-Reachable t.repo s.held (begin-grows c.text_value s.repo t.repo valid opened)
                older);
        }
    Reach-Clean t begun (stepped u step r) =
        run_program-Clean c.text_value s.repo t.repo valid (begun-repo (begin s.repo) t begun).0
          (c.step _ step u.own) u.repo u.held (Reach-Clean t begun r)
    Reach-Clean t begun (blocked u steps r) =
        run_program-Clean c.text_value s.repo t.repo valid (begun-repo (begin s.repo) t begun).0
          (c.block _ steps u.own) u.repo u.held (Reach-Clean t begun r)
    Reach-Clean t begun (waited u ms r) = Reach-Clean t begun r

    rolled-view :
        (t m : State V X)
        → w.begin s ≡ (t, none)
        → Reach w policy (deadline_from policy.timeout (w.now s)) t m
        → view (rollback m.repo) ≡ view s.repo
    rolled-view t m begun reached =
        (rollback-restores c.text_value s.repo t.repo m.repo valid
          (begun-repo (begin s.repo) t begun).0 (Reach-Clean t begun reached).steps).0

    Ends-view :
        (final : State V X) (out : Result (Raised Err) (Report Err))
        → Ends w policy s final (some out)
        → Completed out ⊎ (Escaped out ⊎ (view final.repo ≡ view s.repo))
    Ends-view final out (refused t e raised) =
        inr
          (inr (ap (λ (x : State V X). view x.repo) (sym (refused-same (begin s.repo) t e raised))))
    Ends-view final out (committed t m r begun reached clean) = inl (r, refl, clean)
    Ends-view final out (failed t m r f begun reached why) =
        inr (inr (rolled-view t m begun reached))
    Ends-view final out (thrown t m e begun reached) = inr (inr (rolled-view t m begun reached))
    Ends-view final out (escaped t m e begun reached) = inr (inl (e, refl))

  -- Over a repository whose table entries are rows of its heap, whatever code the steps and the blocks of
  -- the run are, with the rows that the repository hands out and rows that were there before, run_workflow
  -- returns or raises, and either it reports that it has completed, or it raises an exception that is
  -- no RunError, or the tables show what they showed before.
  pub run_workflow-atomic :
      (items : Items)
      → IsValid s.repo
      → All (Where (Below s.repo.heap)) s.held
      → (final : State V X) × (out : Result (Raised Err) (Report Err)) × (run_workflow w policy
            items s
          ≡ (final, some out))
        × (Completed out ⊎ (Escaped out ⊎ (view final.repo ≡ view s.repo)))
  run_workflow-atomic items valid older =
      let (final, out, ran, ends) = run_workflow-Ends w policy items s in
      (final, out, ran, Ends-view valid older final out ends)

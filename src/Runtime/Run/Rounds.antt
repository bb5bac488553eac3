-- ===== src/Runtime/Run/Rounds.antt =====
-- impl/lnpl/interp.py: the rounds of an `until` guard.
use linkly.Base.{
  ℕ, zero, suc, ◌≤◌, ◌<◌, ◌≡◌, ◌≢◌, ◌||◌, ltb, ◌⊎◌, refl, sym, ap, Bool, true, false, Option, arith,
  inl, inr, Bool-cases,
}
use linkly.Base.Result.{Result, ok, err}
use linkly.Runtime.World.{
  GuardNode, Raised, World, Policy, Flow, goes, stops, stuck, raises, is_reached, Run,
}
use linkly.Runtime.Run.{holds, after, end_rounds, until_loop}

module _ {S Err : Type 0} (w : World S Err) (policy : Policy) (deadline : Option ℕ) (g : GuardNode)
    (limit : Option ℕ) (body : Run S Err → Run S Err × Flow Err) where
  abbrev R : Type 0
  R = Run S Err

  -- Rounds of the body, each from a state where the condition does not hold and the deadline is not
  -- reached to the state that the body goes on from.
  pub data Rounds : ℕ → R → R → Type 0 where
    no_round : (r : R) → Rounds 0 r r
    round :
        (n : ℕ) (r s t : R)
        → holds w policy deadline g 0 g.condition r.0 ≡ ok false
        → is_reached limit (w.now r.0) ≡ false
        → body r ≡ (s, goes)
        → Rounds n s t
        → Rounds (suc n) r t

  -- The loop ends behind some rounds with the condition true, at the deadline, or at the cap; or it is
  -- left by the condition or the body.
  pub data Stops (cap : ℕ) (some_round : Bool) (r : R) : R × Flow Err → Type 0 where
    held :
        (n : ℕ) (t : R)
        → n ≤ cap
        → Rounds n r t
        → holds w policy deadline g 0 g.condition t.0 ≡ ok true
        → Stops cap some_round r (end_rounds w policy deadline g (some_round || ltb 0 n) t)
    expired :
        (n : ℕ) (t : R)
        → n ≤ cap
        → Rounds n r t
        → holds w policy deadline g 0 g.condition t.0 ≡ ok false
        → (is_reached limit (w.now t.0) ≡ true) ⊎ (n ≡ cap)
        → Stops cap some_round r (end_rounds w policy deadline g (some_round || ltb 0 n) t)
    broken :
        (n : ℕ) (t : R) (e : Raised Err)
        → n ≤ cap
        → Rounds n r t
        → holds w policy deadline g 0 g.condition t.0 ≡ err e
        → Stops cap some_round r (t, raises e)
    left :
        (n : ℕ) (t : R) (out : R × Flow Err)
        → n < cap
        → Rounds n r t
        → body t ≡ out
        → out.1 ≢ goes
        → Stops cap some_round r out

  or_right : (b : Bool) (n : ℕ) → (b || ltb 0 (suc n)) ≡ true
  or_right b n = ground arith

  -- One round more in front.
  round-Stops :
      (cap : ℕ) (b : Bool) (r s : R) (out : R × Flow Err)
      → holds w policy deadline g 0 g.condition r.0 ≡ ok false
      → is_reached limit (w.now r.0) ≡ false
      → body r ≡ (s, goes)
      → Stops cap true s out
      → Stops (suc cap) b r out
  round-Stops cap b r s out cond inside ran (held n t le rounds c) =
      rw (sym (ap (λ (x : Bool). end_rounds w policy deadline g x t) (or_right b n)))
        (held (suc n) t (omega (arith, le)) (round n r s t cond inside ran rounds) c)
  round-Stops cap b r s out cond inside ran (expired n t le rounds c why) =
      rw (sym (ap (λ (x : Bool). end_rounds w policy deadline g x t) (or_right b n)))
        (expired (suc n) t (omega (arith, le)) (round n r s t cond inside ran rounds) c (later why))
    where
      later :
          (is_reached limit (w.now t.0) ≡ true) ⊎ (n ≡ cap)
          → (is_reached limit (w.now t.0) ≡ true) ⊎ (suc n ≡ suc cap)
      later (inl reached) = inl reached
      later (inr full) = inr (ap (λ (k : ℕ). suc k) full)
  round-Stops cap b r s out cond inside ran (broken n t e le rounds c) =
      broken (suc n) t e (omega (arith, le)) (round n r s t cond inside ran rounds) c
  round-Stops cap b r s out cond inside ran (left n t o lt rounds last why) =
      left (suc n) t o (omega (arith, lt)) (round n r s t cond inside ran rounds) last why

  body-Stops :
      (cap : ℕ) (b : Bool) (r : R) (out : R × Flow Err)
      → body r ≡ out
      → holds w policy deadline g 0 g.condition r.0 ≡ ok false
      → is_reached limit (w.now r.0) ≡ false
      → ((s : R) → Stops cap true s (until_loop w policy deadline g limit body cap true s))
      → Stops
          (suc cap)
          b
          r
          (after w policy deadline out (until_loop w policy deadline g limit body cap true))
  body-Stops cap b r (s, goes) ran cond inside more =
      round-Stops cap b r s _ cond inside ran (more s)
  body-Stops cap b r (s, stops) ran cond inside more =
      left 0 r (s, stops) (omega arith) (no_round r) ran (λ e. cc e)
  body-Stops cap b r (s, stuck) ran cond inside more =
      left 0 r (s, stuck) (omega arith) (no_round r) ran (λ e. cc e)
  body-Stops cap b r (s, raises e) ran cond inside more =
      left 0 r (s, raises e) (omega arith) (no_round r) ran (λ h. cc h)

  ended :
      (cap : ℕ) (b : Bool) (r : R)
      → Stops cap b r (end_rounds w policy deadline g (b || ltb 0 0) r)
      → Stops cap b r (end_rounds w policy deadline g b r)
  ended cap true r h = h
  ended cap false r h = h

  last-Stops :
      (b : Bool) (r : R) (c : Result (Raised Err) Bool)
      → holds w policy deadline g 0 g.condition r.0 ≡ c
      → Stops 0 b r (until_loop w policy deadline g limit body 0 b r)
  unfolding until_loop
  last-Stops b r (err e) h = rw h (broken 0 r e (omega arith) (no_round r) h)
  last-Stops b r (ok true) h = rw h (ended 0 b r (held 0 r (omega arith) (no_round r) h))
  last-Stops b r (ok false) h =
      rw h (ended 0 b r (expired 0 r (omega arith) (no_round r) h (inr refl)))

  next-Stops :
      (left_rounds : ℕ) (b : Bool) (r : R) (c : Result (Raised Err) Bool)
      → holds w policy deadline g 0 g.condition r.0 ≡ c
      → ((s : R)
          → Stops left_rounds true s (until_loop w policy deadline g limit body left_rounds true s))
      → Stops
          (suc left_rounds)
          b
          r
          (until_loop w policy deadline g limit body (suc left_rounds) b r)
  unfolding until_loop
  next-Stops n b r (err e) h more = rw h (broken 0 r e (omega arith) (no_round r) h)
  next-Stops n b r (ok true) h more =
      rw h (ended (suc n) b r (held 0 r (omega arith) (no_round r) h))
  next-Stops n b r (ok false) h more = elim (Bool-cases (is_reached limit (w.now r.0))) [
    | inl reached ↦
        rw (h, reached) (ended (suc n) b r (expired 0 r (omega arith) (no_round r) h (inl reached)))
    | inr inside ↦ rw (h, inside) (body-Stops n b r (body r) refl h inside more)
  ]

  -- However often an `until` guard has run its items, its loop ends behind at most the
  -- rounds that are left: with the condition true, at the deadline, or with none left; or an item or
  -- the condition leaves it. The condition was false, and the deadline not reached, before every round.
  pub until_loop-Stops :
      (rounds : ℕ) (b : Bool) (r : R)
      → Stops rounds b r (until_loop w policy deadline g limit body rounds b r)
  until_loop-Stops zero b r = last-Stops b r (holds w policy deadline g 0 g.condition r.0) refl
  until_loop-Stops (suc n) b r =
      next-Stops n b r (holds w policy deadline g 0 g.condition r.0) refl
        (λ s. until_loop-Stops n true s)

-- ===== src/Fsops/Retry.antt =====
-- How often a call is repeated that says `EAGAIN` (src/fsops.rs).
use byssus.Base.{
  ap, sym, if◌then◌else◌, map_err, ℕ, zero, suc, ◌≤◌, ◌<◌, ◌≡◌, ◌⊎◌, inl, inr, refl, Bool, true,
  false, Result, ok, err, arith,
}
use byssus.Base.Exec.{Exec, map_error}
use byssus.System.{System, IoError, os}
use byssus.Fsops.{retry_eagain}

module _ (sys : System) (call : Exec sys.World sys.Errno sys.Fd) where
  open sys use {World, Fd, Errno, is_again}

  -- The world after this many calls.
  abbrev after : ℕ → World → World
  after zero w = w
  after (suc n) w = after n (call w).1

  abbrev says_again : Result Errno Fd → Bool
  says_again (ok fd) = false
  says_again (err e) = is_again e

  -- What the last of a row of calls gave: all before it said `EAGAIN`, and it is the first that did
  -- not, or the last that is allowed.
  pub record IsRetried (n : ℕ) (w : World) (r : Result (IoError Errno) Fd × World) : Type 0 where
    pub tries : ℕ
    pub few : tries ≤ n
    pub result : r ≡ map_error os call (after tries w)
    pub earlier : (j : ℕ) → j < tries → says_again (call (after j w)).0 ≡ true
    pub settled : (tries ≡ n) ⊎ (says_again (call (after tries w)).0 ≡ false)

  earlier_too :
      (t : ℕ) (w : World)
      → says_again (call w).0 ≡ true
      → ((j : ℕ) → j < t → says_again (call (after j (call w).1)).0 ≡ true)
      → (j : ℕ) → j < suc t
      → says_again (call (after j w)).0 ≡ true
  earlier_too t w e h zero k = e
  earlier_too t w e h (suc j) k = h j (omega arith)

  one_more :
      (n : ℕ) (w : World) (r : Result (IoError Errno) Fd × World)
      → says_again (call w).0 ≡ true
      → IsRetried n (call w).1 r
      → IsRetried (suc n) w r
  one_more n w r e h = record {
    tries = suc h.tries;
    few = omega (arith, h.few);
    result = h.result;
    earlier = earlier_too h.tries w e h.earlier;
    settled = elim h.settled [ inl x ↦ inl (omega (arith, x)) | inr x ↦ inr x ];
  }

  first :
      (n : ℕ) (w : World) (q : Result Errno Fd) (w' : World)
      → call w ≡ (q, w')
      → says_again q ≡ false
      → IsRetried n w (map_err os q, w')
  first n w q w' e h = record {
    tries = 0;
    few = omega arith;
    result = ap (λ p. (map_err os p.0, p.1)) (sym e);
    earlier = λ j h. absurd (omega arith);
    settled = inr (rw e h);
  }

  branch :
      (n : ℕ) (w : World) (x : Errno) (w' : World) (again : Result (IoError Errno) Fd × World)
      (b : Bool)
      → call w ≡ (err x, w')
      → is_again x ≡ b
      → IsRetried n (call w).1 again
      → IsRetried (suc n) w (if b then again else (err (os x), w'))
  branch n w x w' again true e h k = one_more n w again (rw e h) k
  branch n w x w' again false e h k = first (suc n) w (err x) w' e h

  retried :
      (n : ℕ) (w : World) (q : Result Errno Fd) (w' : World)
      (again : Result (IoError Errno) Fd × World)
      → call w ≡ (q, w')
      → IsRetried n (call w).1 again
      → IsRetried
          (suc n)
          w
          (elim q [ ok fd ↦ (ok fd, w') | err e ↦ if is_again e then again else (err (os e), w') ])
  retried n w (ok fd) w' again e k = first (suc n) w (ok fd) w' e refl
  retried n w (err x) w' again e k = branch n w x w' again (is_again x) e refl k

  -- A call is made again only while it says `EAGAIN`, at most as often as there are retries, and the
  -- result is that of the last call.
  pub retry_eagain-IsRetried : (n : ℕ) (w : World) → IsRetried n w (retry_eagain sys n call w)
  unfolding retry_eagain
  retry_eagain-IsRetried zero w = record {
    tries = 0;
    few = omega arith;
    result = refl;
    earlier = λ j h. absurd (omega arith);
    settled = inl refl;
  }
  retry_eagain-IsRetried (suc n) w =
      retried n w (call w).0 (call w).1 (retry_eagain sys n call (call w).1) refl
        (retry_eagain-IsRetried n (call w).1)

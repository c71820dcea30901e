-- ===== src/Depot/Publish/Bounded.antt =====
-- The retries of a publication end: whatever other processes do, moving the pointer and entering the
-- machine into the index make a bounded number of calls on the store.
use aha.Prelude.{ℕ, zero, suc, ◌+◌, ◌*◌, ◌≤◌, Option, none, some, Result, ok, err, arith, length}
use aha.Text.{Bytes}
use aha.Depot.Store.{World, Depot, DepotError}
use aha.Depot.Store.Costs.{
  Costs, pure-Costs, raise-Costs, >>=-Costs, attempt-Costs, check_context-Costs, get-Costs,
  put_conditional-Costs, absent_or-Costs, or_raise-Costs, raise_if-Costs, if-Costs,
}
use aha.Depot.Codec.{Externals}
use aha.Depot.Keys.{latest_pointer_key}
use aha.Depot.Machine.{PublishedSnapshot}
use aha.Depot.Publish.{
  again, after_write, read_index, register, ensure_in_machines_index, point, set_latest, judge,
  Pointer, up_to_date, stale, replace, conditional_retry_attempts,
}

cheaper : (j k : ℕ) (m : Depot (Unit {0})) → j ≤ k → Costs j m → Costs k m
cheaper j k m h c w = omega (arith, h, c w)

again-Costs :
    (n k : ℕ) (key : Bytes) (m : Depot (Unit {0})) → Costs k m → Costs (1 + k) (again n key m)
unfolding again
again-Costs zero k key m c = raise-Costs _ _ _
again-Costs (suc n) k key m c = >>=-Costs 1 k _ _ check_context-Costs (λ _. c)

after_write-Costs :
    (k : ℕ) (r : Result DepotError (Unit {0})) (done retry : Depot (Unit {0}))
    → Costs k done
    → Costs k retry
    → Costs k (after_write r done retry)
unfolding after_write
after_write-Costs k (ok _) done retry c d = c
after_write-Costs k (err DepotError.precondition_failed) done retry c d = d
after_write-Costs k (err e) done retry c d = raise-Costs _ _ _

module _ (x : Externals) where
  read_index-Costs : (q : Option (Bytes × Bytes)) → Costs 0 (read_index x q)
  unfolding read_index
  read_index-Costs none = pure-Costs 0 _
  read_index-Costs (some (b, etag)) = >>=-Costs 0 0 _ _ (or_raise-Costs _ _) (λ ms. pure-Costs 0 _)

  register-Costs : (n : ℕ) (machine : Bytes) → Costs (4 * n) (register x n machine)
  unfolding register
  register-Costs zero machine = raise-Costs _ _ _
  register-Costs (suc n) machine =
      cheaper (1 + (1 + (0 + (0 + (0 + (1 + (1 + 4 * n))))))) (4 * suc n)
        (register x (suc n) machine) (omega arith)
        (>>=-Costs 1 _ _ _ check_context-Costs (λ _.
          >>=-Costs 1 _ _ _ (attempt-Costs 1 _ (get-Costs _ _)) (λ r.
            >>=-Costs 0 _ _ _ (absent_or-Costs r) (λ q. >>=-Costs 0 _ _ _ (read_index-Costs q) (λ p.
              if-Costs _ _ _ _ (pure-Costs _ tt) (
                >>=-Costs 0 (1 + (1 + 4 * n)) _ _ (or_raise-Costs _ _) (λ b.
                  >>=-Costs 1 _ _ _ (attempt-Costs 1 _ (put_conditional-Costs _ _ _ _)) (λ w.
                    after_write-Costs _ w _ _ (pure-Costs _ tt)
                      (again-Costs n (4 * n) _ _ (register-Costs n machine))))))))))

  pointer-Costs :
      (k : ℕ) (q : Pointer) (m n : Depot (Unit {0})) (f : Bytes → Depot (Unit {0}))
      → Costs k m
      → Costs k n
      → ((etag : Bytes) → Costs k (f etag))
      → Costs k (elim q [ up_to_date ↦ m | stale ↦ n | replace etag ↦ f etag ])
  pointer-Costs k up_to_date m n f c d e = c
  pointer-Costs k stale m n f c d e = d
  pointer-Costs k (replace etag) m n f c d e = e etag

  ensured-Costs : (k : ℕ) (machine : Bytes) → Costs (k + 48) (ensure_in_machines_index x machine)
  unfolding ensure_in_machines_index
  ensured-Costs k machine =
      cheaper (4 * conditional_retry_attempts) (k + 48) (ensure_in_machines_index x machine)
        (omega arith) (register-Costs conditional_retry_attempts machine)

  point-Costs :
      (n : ℕ) (p : PublishedSnapshot) (pointer : Bytes) → Costs (4 * n + 48) (point x n p pointer)
  unfolding point
  point-Costs zero p pointer = raise-Costs _ _ _
  point-Costs (suc n) p pointer =
      cheaper (1 + (1 + (0 + (1 + (1 + 4 * n + 48))))) (4 * suc n + 48) (point x (suc n) p pointer)
        (omega arith)
        (>>=-Costs 1 _ _ _ check_context-Costs (λ _.
          >>=-Costs 1 _ _ _ (attempt-Costs 1 _ (get-Costs _ _)) (λ r.
            >>=-Costs 0 _ _ _ (absent_or-Costs r) (λ q.
              pointer-Costs _ (judge x p q) _ _ _
                (cheaper 48 (1 + (1 + 4 * n + 48)) (ensure_in_machines_index x p.machine)
                  (omega arith) (ensured-Costs 0 p.machine))
                (raise-Costs _ _ _)
                (λ etag.
                  >>=-Costs 1 (1 + 4 * n + 48) _ _
                    (attempt-Costs 1 _ (put_conditional-Costs _ _ _ _))
                    (λ w.
                      after_write-Costs _ w _ _
                        (cheaper 48 (1 + 4 * n + 48) (ensure_in_machines_index x p.machine)
                          (omega arith) (ensured-Costs 0 p.machine))
                        (cheaper (1 + (4 * n + 48)) (1 + 4 * n + 48)
                          (again n (latest_pointer_key x.sha256 p.machine) (point x n p pointer))
                          (omega arith)
                          (again-Costs n (4 * n + 48) _ _ (point-Costs n p pointer)))))))))

  -- `setLatest` ends after at most 96 steps, each a call on the store or a look at the context, in any
  -- world: whatever other processes do before a step, and whichever steps fail.
  pub set_latest_bounded :
      (machine : Bytes) (p : PublishedSnapshot) (w : World)
      → length w.events ≤ length (set_latest x machine p w).1.events + 96
  unfolding set_latest
  set_latest_bounded machine p w =
      >>=-Costs 0 96 _ _ (raise_if-Costs _ _)
        (λ _.
          >>=-Costs 0 96 _ _ (or_raise-Costs _ _)
            (λ pointer. point-Costs conditional_retry_attempts p pointer))
        w

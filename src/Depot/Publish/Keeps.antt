-- ===== src/Depot/Publish/Keeps.antt =====
-- Publication keeps a property of the objects that survives each kind of write: a new manifest, a
-- moved pointer of the machine, and an updated index.
use aha.Prelude.{ℕ, zero, suc, none, some, List, Option, Result, ok, err, ◌≡◌, subst, sym, arith}
use aha.Text.{Bytes, text_eq_iff}
use aha.Model.Snapshot.Files.{SnapshotManifest}
use aha.Model.Snapshot.Codec.{ManifestSha256, encode_snapshot_manifest}
use aha.Depot.Keys.{manifest_object_key, latest_pointer_key, machines_index_key}
use aha.Depot.Store.{Objects, write, Depot, DepotError}
use aha.Depot.Store.Keeps.{
  Keeps, pure-Keeps, raise-Keeps, >>=-Keeps, or_raise-Keeps, raise_if-Keeps, get_or_absent-Keeps,
  attempt-Keeps, put_if_absent-Keeps, put_conditional-Keeps, if-Keeps, check_context-Keeps,
}
use aha.Depot.Codec.{Externals}
use aha.Depot.Machine.{BlobReceipt, PublishedSnapshot, ParentSnapshot}
use aha.Depot.Publish.{
  Pointer, up_to_date, stale, replace, again, after_write, judge, read_index, register,
  ensure_in_machines_index, point, set_latest, recommit_parent, expectation, publish_snapshot,
  conditional_retry_attempts,
}

module _ (P : Objects → Type 0) where
  again-Keeps : (n : ℕ) (key : Bytes) (m : Depot (Unit {0})) → Keeps P m → Keeps P (again n key m)
  unfolding again
  again-Keeps zero key m k = raise-Keeps P _ _
  again-Keeps (suc n) key m k = >>=-Keeps P _ _ (check_context-Keeps P) (λ _. k)

  after_write-Keeps :
      (r : Result DepotError (Unit {0})) (done retry : Depot (Unit {0}))
      → Keeps P done
      → Keeps P retry
      → Keeps P (after_write r done retry)
  unfolding after_write
  after_write-Keeps (ok _) done retry k l = k
  after_write-Keeps (err DepotError.precondition_failed) done retry k l = l
  after_write-Keeps (err e) done retry k l = raise-Keeps P _ _

  pointer-Keeps :
      (q : Pointer) (m n : Depot (Unit {0})) (f : Bytes → Depot (Unit {0}))
      → Keeps P m
      → Keeps P n
      → ((etag : Bytes) → Keeps P (f etag))
      → Keeps P (elim q [ up_to_date ↦ m | stale ↦ n | replace etag ↦ f etag ])
  pointer-Keeps up_to_date m n f k l j = k
  pointer-Keeps stale m n f k l j = l
  pointer-Keeps (replace etag) m n f k l j = j etag

module _ (P : Objects → Type 0) (x : Externals) (machine : Bytes)
    (on_index : (o : Objects) (b : Bytes) → P o → P (write o machines_index_key b))
    (on_pointer : (o : Objects) (b : Bytes)
      → P o
      → P (write o (latest_pointer_key x.sha256 machine) b)) where
  read_index-Keeps : (q : Option (Bytes × Bytes)) → Keeps P (read_index x q)
  unfolding read_index
  read_index-Keeps none = pure-Keeps P _
  read_index-Keeps (some (b, etag)) = or_raise-Keeps P _ _ _ (λ ms e. pure-Keeps P _)

  register-Keeps : (n : ℕ) (m : Bytes) → Keeps P (register x n m)
  unfolding register
  register-Keeps zero m = raise-Keeps P _ _
  register-Keeps (suc n) m = >>=-Keeps P _ _ (check_context-Keeps P) (λ _.
      get_or_absent-Keeps P _ _ _ (λ q. >>=-Keeps P _ _ (read_index-Keeps q) (λ r.
        if-Keeps P _ _ _ (pure-Keeps P tt) (
          or_raise-Keeps P _ _ _ (λ b e.
            >>=-Keeps P _ _
              (attempt-Keeps P _ (put_conditional-Keeps P _ _ _ _ (λ o. on_index o b)))
              (λ w.
                after_write-Keeps P w _ _ (pure-Keeps P tt)
                  (again-Keeps P n _ _ (register-Keeps n m))))))))

  pub ensure_in_machines_index-Keeps : (m : Bytes) → Keeps P (ensure_in_machines_index x m)
  unfolding ensure_in_machines_index
  ensure_in_machines_index-Keeps m = register-Keeps conditional_retry_attempts m

  on_pointer_of :
      (m b : Bytes)
      → m ≡ machine
      → (o : Objects) → P o
      → P (write o (latest_pointer_key x.sha256 m) b)
  on_pointer_of m b e o h =
      subst (λ n. P (write o (latest_pointer_key x.sha256 n) b)) (sym e) (on_pointer o b h)

  point-Keeps :
      (n : ℕ) (p : PublishedSnapshot) (b : Bytes) → p.machine ≡ machine → Keeps P (point x n p b)
  unfolding point
  point-Keeps zero p b e = raise-Keeps P _ _
  point-Keeps (suc n) p b e =
      let done = ensure_in_machines_index-Keeps p.machine in
      >>=-Keeps P _ _ (check_context-Keeps P) (λ _. get_or_absent-Keeps P _ _ _ (λ found.
        pointer-Keeps P (judge x p found) _ _ _ done (raise-Keeps P _ _) (λ etag.
          >>=-Keeps P _ _
            (attempt-Keeps P _ (put_conditional-Keeps P _ _ _ _ (on_pointer_of p.machine b e)))
            (λ w. after_write-Keeps P w _ _ done (again-Keeps P n _ _ (point-Keeps n p b e))))))

  pub set_latest-Keeps : (p : PublishedSnapshot) → Keeps P (set_latest x machine p)
  unfolding set_latest
  set_latest-Keeps p = raise_if-Keeps P _ _ _ (λ h. or_raise-Keeps P _ _ _ (λ b _.
      point-Keeps conditional_retry_attempts p b
        ((text_eq_iff p.machine machine).0 (ground arith))))

  pub recommit_parent-Keeps : (p : ParentSnapshot) → Keeps P (recommit_parent x machine p)
  unfolding recommit_parent
  recommit_parent-Keeps p = raise_if-Keeps P _ _ _ (λ _. set_latest-Keeps _)

  expectation-Keeps : (q : Option ParentSnapshot) → Keeps P (expectation x machine q)
  unfolding expectation
  expectation-Keeps none = pure-Keeps P _
  expectation-Keeps (some p) = raise_if-Keeps P _ _ _ (λ _. pure-Keeps P _)

  pub publish_snapshot-Keeps :
      (m : SnapshotManifest) (receipts : List BlobReceipt) (q : Option ParentSnapshot)
      → ((o : Objects) (b : Bytes) (sha : ManifestSha256)
          → encode_snapshot_manifest x.sha256 x.manifest_json m ≡ ok (b, sha)
          → o (manifest_object_key x.sha256 machine sha.value) ≡ none
          → P o
          → P (write o (manifest_object_key x.sha256 machine sha.value) b))
      → Keeps P (publish_snapshot x machine m receipts q)
  unfolding publish_snapshot
  publish_snapshot-Keeps m receipts q k = raise_if-Keeps P _ _ _ (λ _. raise_if-Keeps P _ _ _ (λ _.
      or_raise-Keeps P _ _ _ (λ r e. raise_if-Keeps P _ _ _ (λ _.
        >>=-Keeps P _ _ (put_if_absent-Keeps P _ _ (λ o n h. k o r.0 r.1 e n h))
          (λ _. >>=-Keeps P _ _ (expectation-Keeps q) (λ _. pure-Keeps P _))))))

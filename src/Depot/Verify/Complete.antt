-- ===== src/Depot/Verify/Complete.antt =====
-- The audit of an Archive that nobody changes meanwhile, with the historical manifests that the store
-- lists: what its problems say of the stored objects.
use aha.Prelude.{
  ◌↔◌, length, ok_inj, err_not_ok, none_not_some, some_inj, Bool, true, false, List, [], ◌∷◌,
  Option, none, some, Result, ok, err, ◌≡◌, refl, sym, subst, ◌∙◌, Bool-cases, inl, inr, All,
}
use aha.Text.{Bytes, contains}
use aha.Model.Identity.{IdentityError, Sha256Hex, parse_sha256_hex}
use aha.Model.Snapshot.Files.{ManifestFile, SnapshotManifest}
use aha.Model.Snapshot.Codec.{ManifestSha256}
use aha.Depot.Store.{Objects, DepotError, pure, check_context}
use aha.Depot.Store.Quiet.{quietly, check_context-quietly}
use aha.Depot.Store.Steps.{bind_known}
use aha.Depot.Store.Reads.{machines-Reads, read_bind, latest-Reads, value, read_attempt}
use aha.Depot.Codec.{Externals}
use aha.Depot.Machine.{machines, latest}
use aha.Depot.Verify.{
  check_listed, after_name, named_identity, manifests_prefix, VerifyReport, check_manifest,
  check_history, after_latest, check_machine, check_machines, verify_data, Audit, Problem, Lister,
}
use aha.Depot.Verify.Stored.{
  BlobStored, ManifestStored, PointerStored, IndexStored, open_blob-BlobStored, has_blob-BlobStored,
  manifest-ManifestStored, latest-PointerStored, machines-IndexStored,
}
use aha.Depot.Verify.Verdict.{
  BlobOk, Verdict, both, problem-Verdict, pass-Verdict, as_Verdict, unless_cancelled-Verdict,
}
use aha.Depot.Verify.Sound.{All-map, MachineOk, ManifestOk, manifest-Verdict}

module _ (x : Externals) (deep : Bool) (o : Objects) where
  -- A listed manifest that has not been seen yet: its name is an identity, and it is right.
  abbrev ListedOk : Bytes → Bytes → Type 0
  ListedOk machine key =
      (s : Sha256Hex) × (parse_sha256_hex (named_identity x machine key) ≡ ok s)
      × ManifestOk x deep o machine (record { value = s.value })

  named-Verdict :
      (machine key : Bytes) (a b : Audit) (r : Result IdentityError Sha256Hex)
      → deep ≡ true
      → b.problems ≡ a.problems
      → b.checked_blobs ≡ a.checked_blobs
      → Verdict x deep o a
          (after_name x machine b r)
          (Unit {0})
          ((s : Sha256Hex) × (r ≡ ok s) × ManifestOk x deep o machine (record { value = s.value }))
  unfolding after_name
  named-Verdict machine key a b (err e) d p c =
      problem-Verdict x deep o a b _ _ _ (λ (s, k, _). absurd (err_not_ok k))
  named-Verdict machine key a b (ok s) d p c =
      subst
        (λ t.
          Verdict x deep o a (check_manifest x t machine (record { value = s.value }) b) (Unit {0})
            ((s' : Sha256Hex) × (◌≡◌ {A = Result IdentityError Sha256Hex} (ok s) (ok s'))
              × ManifestOk x deep o machine (record { value = s'.value })))
        d
        (as_Verdict x deep o a _ _ refl (λ q. tt)
          (λ (s', k, q).
            subst (λ t. ManifestOk x deep o machine (record { value = Sha256Hex.value t }))
              (sym (ok_inj k)) q)
          (manifest-Verdict x deep o machine (record { value = s.value }) a b p c))

  listed-Verdict :
      (machine : Bytes) (ks : List Bytes) (a : Audit)
      → deep ≡ true
      → Verdict x deep o a (check_listed x machine a ks) (Unit {0}) (All (ListedOk machine) ks)
  unfolding check_listed
  listed-Verdict machine [] a d = pass-Verdict x deep o a _ _ (λ c q. tt)
  listed-Verdict machine (key ∷ ks) a d = elim (Bool-cases (contains a.seen_manifests key)) [
    | inl h ↦
        rw h (as_Verdict x deep o a _ _ refl (λ q. q) (λ (p, q). q) (listed-Verdict machine ks a d))
    | inr h ↦ rw h (
        as_Verdict x deep o a _ _ refl (λ q. tt) (λ q. q)
          (both x deep o a _ _ (named-Verdict machine key a _ _ d refl refl)
            (λ b. listed-Verdict machine ks b d)))
  ]

  module _ (lister : Lister) (keys_of : Bytes → List Bytes)
      (lists : deep ≡ true
        → (machine : Bytes)
        → lister (manifests_prefix x machine) (quietly o) ≡ (ok (keys_of machine), quietly o)) where
    abbrev HistoryOk : Bool → Bytes → Type 0
    HistoryOk false machine = Unit {0}
    HistoryOk true machine = All (ListedOk machine) (keys_of machine)

    history-Verdict :
        (d : Bool) (machine : Bytes) (a : Audit)
        → deep ≡ d
        → Verdict x deep o a
            (check_history x d (some lister) machine a)
            (Unit {0})
            (HistoryOk d machine)
    unfolding check_history
    history-Verdict false machine a h = pass-Verdict x deep o a _ _ (λ c q. tt)
    history-Verdict true machine a h =
        as_Verdict x deep o a _ _ (bind_known _ _ (quietly o) (lists h machine)) (λ q. q) (λ q. q)
          (listed-Verdict machine (keys_of machine) a h)

    pointed-Verdict :
        (machine : Bytes) (a : Audit) (r : Result DepotError (Option ManifestSha256))
        → value (latest x machine) o ≡ r
        → Verdict x deep o a
            (after_latest x deep (some lister) machine a r)
            (MachineOk x deep o machine)
            (MachineOk x deep o machine × HistoryOk deep machine)
    unfolding after_latest
    pointed-Verdict machine a (err e) h =
        unless_cancelled-Verdict x deep o a a _ _ _ (λ ((sha, g, _), _). err_not_ok (sym h ∙ g))
    pointed-Verdict machine a (ok none) h =
        problem-Verdict x deep o a a _ _ _ (λ ((sha, g, _), _). none_not_some (ok_inj (sym h ∙ g)))
    pointed-Verdict machine a (ok (some sha)) h =
        as_Verdict x deep o a _ _ refl (λ (q, _). (sha, h, q))
          (λ ((sha', g, q), k).
            (subst (ManifestOk x deep o machine) (some_inj (ok_inj (sym g ∙ h))) q, k))
          (both x deep o a _ _ (manifest-Verdict x deep o machine sha a _ refl refl)
            (λ b. history-Verdict deep machine b refl))

    machine-Verdict :
        (a : Audit) (machine : Bytes)
        → Verdict x deep o a
            (check_machine x deep (some lister) a machine)
            (MachineOk x deep o machine)
            (MachineOk x deep o machine × HistoryOk deep machine)
    unfolding check_machine
    machine-Verdict a machine =
        as_Verdict x deep o a _ _ (read_attempt (latest x machine) _ o (latest-Reads x machine))
          (λ q. q) (λ q. q) (pointed-Verdict machine a _ refl)

    machines-Verdict :
        (ms : List Bytes) (a : Audit)
        → Verdict x deep o a
            (check_machines x deep (some lister) a ms)
            (All (MachineOk x deep o) ms)
            (All (λ m. MachineOk x deep o m × HistoryOk deep m) ms)
    unfolding check_machines
    machines-Verdict [] a = pass-Verdict x deep o a _ _ (λ c q. tt)
    machines-Verdict (m ∷ ms) a = both x deep o a _ _ (machine-Verdict a m) (machines-Verdict ms)

  -- The conditions on what is stored.
  abbrev pub FileStored : ManifestFile → Type 0
  FileStored f = (s : Sha256Hex) × (parse_sha256_hex f.sha256 ≡ ok s) × BlobStored x o deep f.sha256

  abbrev pub SnapshotStored : Bytes → ManifestSha256 → Type 0
  SnapshotStored machine sha =
      (m : SnapshotManifest) × ManifestStored x o machine sha m × All FileStored m.files

  abbrev pub MachineStored : Bytes → Type 0
  MachineStored machine =
      (sha : ManifestSha256) × PointerStored x o machine sha × SnapshotStored machine sha

  abbrev pub HistoryStored : Bool → List Bytes → Bytes → Type 0
  HistoryStored false keys machine = Unit {0}
  HistoryStored true keys machine =
      All
        (λ key.
          (s : Sha256Hex) × (parse_sha256_hex (named_identity x machine key) ≡ ok s)
          × SnapshotStored machine (record { value = s.value }))
        keys

  blob-BlobStored : (d : Bool) (key : Bytes) → BlobOk x deep o d key ↔ BlobStored x o d key
  blob-BlobStored true key = open_blob-BlobStored x o key
  blob-BlobStored false key = has_blob-BlobStored x o key

  manifest-SnapshotStored :
      (machine : Bytes) (sha : ManifestSha256)
      → ManifestOk x deep o machine sha ↔ SnapshotStored machine sha
  manifest-SnapshotStored machine sha = (
    λ (m, e, fs). (
      m,
      (manifest-ManifestStored x o machine sha m).0 e,
      All-map (λ f (s, p, b). (s, p, (blob-BlobStored deep f.sha256).0 b)) m.files fs,
    ),
    λ (m, e, fs). (
      m,
      (manifest-ManifestStored x o machine sha m).1 e,
      All-map (λ f (s, p, b). (s, p, (blob-BlobStored deep f.sha256).1 b)) m.files fs,
    ),
  )

  machine-MachineStored : (machine : Bytes) → MachineOk x deep o machine ↔ MachineStored machine
  machine-MachineStored machine = (
    λ (sha, e, k). (
      sha,
      (latest-PointerStored x o machine sha).0 e,
      (manifest-SnapshotStored machine sha).0 k,
    ),
    λ (sha, e, k). (
      sha,
      (latest-PointerStored x o machine sha).1 e,
      (manifest-SnapshotStored machine sha).1 k,
    ),
  )

  history-HistoryStored :
      (lister : Lister) (keys_of : Bytes → List Bytes)
      (lists : deep ≡ true
        → (machine : Bytes)
        → lister (manifests_prefix x machine) (quietly o) ≡ (ok (keys_of machine), quietly o))
      (d : Bool) (machine : Bytes)
      → HistoryStored d (keys_of machine) machine
      → HistoryOk lister keys_of lists d machine
  history-HistoryStored lister keys_of lists false machine h = tt
  history-HistoryStored lister keys_of lists true machine h =
      All-map (λ key (s, p, k). (s, p, (manifest-SnapshotStored machine _).1 k)) (keys_of machine) h

  -- In a world that nobody else changes, where the index of machines is absent or can be read and, if
  -- the audit is deep, the store lists the manifests of each machine: the audit returns, changes
  -- nothing and counts the listed machines. If it reports no problem, then the marker gave none,
  -- and every listed machine has a latest pointer to a stored manifest that decodes, has the
  -- identity and belongs to the machine, each file of which names a blob that is stored, and in
  -- a deep audit decompresses to at most 4 GiB that hash to its key. And it reports none if this
  -- holds and, in a deep audit, every listed manifest has an identity for a name and is such a
  -- manifest too.
  pub verify_data_sound :
      (lister : Lister) (keys_of : Bytes → List Bytes)
      → (deep ≡ true
          → (machine : Bytes)
          → lister (manifests_prefix x machine) (quietly o) ≡ (ok (keys_of machine), quietly o))
      → (problems : List Problem) (ms : List Bytes) → IndexStored x o ms
      → (report : VerifyReport) × (verify_data x deep (some lister) problems (quietly o)
          ≡ (ok report, quietly o))
        × (report.machines ≡ length ms)
        × (report.problems ≡ [] → (problems ≡ []) × All MachineStored ms)
        × (problems ≡ []
            → All (λ m. MachineStored m × HistoryStored deep (keys_of m) m) ms
            → report.problems ≡ [])
  unfolding verify_data pure
  verify_data_sound lister keys_of lists problems ms h =
      let v =
        machines-Verdict lister keys_of lists ms (record {
          manifests = 0;
          problems = problems;
          checked_blobs = [];
          seen_manifests = [];
        }) in
      (
        _,
        read_bind (machines x) _ o (machines-Reads x) (machines-IndexStored x o ms h)
            ∙ bind_known _ _ (quietly o) v.runs
            ∙ bind_known check_context _ (quietly o) (check_context-quietly o),
        refl,
        λ e.
            let (p, k) = v.sound (λ q. tt) e in
            (p, All-map (λ m. (machine-MachineStored m).0) ms k),
        λ p k. v.complete p (
            All-map
              (λ m (s, t). (
                (machine-MachineStored m).1 s,
                history-HistoryStored lister keys_of lists deep m t,
              ))
              ms k),
      )

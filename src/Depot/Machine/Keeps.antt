-- ===== src/Depot/Machine/Keeps.antt =====
-- The reads of a machine's handle keep every property of the objects; storing a blob keeps those that
-- a new object of that blob keeps.
use aha.Prelude.{none, some, ok, ◌≡◌}
use aha.Text.{Bytes}
use aha.Cas.{put_file}
use aha.Model.Snapshot.Codec.{ManifestSha256}
use aha.Depot.Keys.{blob_object_key}
use aha.Depot.Store.{Objects, write}
use aha.Depot.Store.Keeps.{
  Keeps, pure-Keeps, >>=-Keeps, or_raise-Keeps, raise_if-Keeps, get-Keeps, get_or_absent-Keeps,
  put_if_absent-Keeps, option-Keeps,
}
use aha.Depot.Codec.{Externals}
use aha.Depot.Machine.{latest, prepared_manifest, manifest, parent, ensure_blob}

module _ (P : Objects → Type 0) (x : Externals) where
  pub latest-Keeps : (machine : Bytes) → Keeps P (latest x machine)
  unfolding latest
  latest-Keeps machine = get_or_absent-Keeps P _ _ _ (λ q.
      option-Keeps P q _ _ (pure-Keeps P none)
        (λ p. or_raise-Keeps P _ _ _ (λ sha e. pure-Keeps P (some sha))))

  pub prepared_manifest-Keeps :
      (machine : Bytes) (sha : ManifestSha256) → Keeps P (prepared_manifest x machine sha)
  unfolding prepared_manifest
  prepared_manifest-Keeps machine sha = raise_if-Keeps P _ _ _ (λ _.
      >>=-Keeps P _ _ (get-Keeps P _ _) (λ p.
        or_raise-Keeps P _ _ _
          (λ s e. raise_if-Keeps P _ _ _ (λ _. raise_if-Keeps P _ _ _ (λ _. pure-Keeps P s)))))

  pub manifest-Keeps : (machine : Bytes) (sha : ManifestSha256) → Keeps P (manifest x machine sha)
  unfolding manifest
  manifest-Keeps machine sha =
      >>=-Keeps P _ _ (prepared_manifest-Keeps machine sha) (λ s. pure-Keeps P _)

  pub parent-Keeps : (machine : Bytes) → Keeps P (parent x machine)
  unfolding parent
  parent-Keeps machine = >>=-Keeps P _ _ (latest-Keeps machine) (λ q.
      option-Keeps P q _ _ (pure-Keeps P none)
        (λ sha. >>=-Keeps P _ _ (manifest-Keeps machine sha) (λ m. pure-Keeps P _)))

  pub ensure_blob-Keeps :
      (key content : Bytes)
      → ((o : Objects) (stored : Bytes)
          → put_file x.sha256 x.zstd key content ≡ ok stored
          → o (blob_object_key key) ≡ none
          → P o
          → P (write o (blob_object_key key) stored))
      → Keeps P (ensure_blob x key content)
  unfolding ensure_blob
  ensure_blob-Keeps key content k = or_raise-Keeps P _ _ _ (λ stored e.
      >>=-Keeps P _ _ (put_if_absent-Keeps P _ _ (λ o n h. k o stored e n h)) (λ b. pure-Keeps P _))

-- ===== src/Depot/Init/Safety.antt =====
-- `Init` creates a marker and changes nothing that is stored.
use aha.Prelude.{none, some, Result, ok, err, ◌≡◌, ◌∙◌}
use aha.Text.{Bytes}
use aha.Encoding.Json.{Json}
use aha.Depot.Keys.{marker_object_key}
use aha.Depot.Store.{Objects, write, World, DepotError}
use aha.Depot.Store.Laws.{write_other}
use aha.Depot.Store.Keeps.{
  Stable, Keeps, pure-Keeps, raise-Keeps, >>=-Keeps, attempt-Keeps, get-Keeps, get_or_absent-Keeps,
  option-Keeps, create-Keeps, or_raise_last-Keeps,
}
use aha.Depot.Codec.{Externals}
use aha.Depot.Marker.{Marker, marker_bytes}
use aha.Depot.Init.{reject_legacy_archive, accept_marker, accept_winner, after_create, init}

module _ (P : Objects → Type 0) (x : Externals) (json : Json Marker) where
  accept_marker-Keeps : (b : Bytes) → Keeps P (accept_marker x json b)
  unfolding accept_marker
  accept_marker-Keeps b = or_raise_last-Keeps P _ _

  reject_legacy_archive-Keeps : Keeps P (reject_legacy_archive x json)
  unfolding reject_legacy_archive
  reject_legacy_archive-Keeps =
      get_or_absent-Keeps P _ _ _
        (λ q. option-Keeps P q _ _ (pure-Keeps P tt) (λ p. raise-Keeps P _ _))

  accept_winner-Keeps : Keeps P (accept_winner x json)
  unfolding accept_winner
  accept_winner-Keeps = >>=-Keeps P _ _ (get-Keeps P _ _) (λ p. accept_marker-Keeps p.0)

  after_create-Keeps : (r : Result DepotError (Unit {0})) → Keeps P (after_create x json r)
  unfolding after_create
  after_create-Keeps (ok _) = pure-Keeps P tt
  after_create-Keeps (err DepotError.precondition_failed) = accept_winner-Keeps
  after_create-Keeps (err e) = raise-Keeps P _ _

  init-Keeps :
      (fresh : Marker)
      → ((o : Objects)
          → o marker_object_key ≡ none
          → P o
          → P (write o marker_object_key (marker_bytes json fresh)))
      → Keeps P (init x json fresh)
  unfolding init
  init-Keeps fresh k = >>=-Keeps P _ _ reject_legacy_archive-Keeps (λ _.
      get_or_absent-Keeps P _ _ _ (λ q.
        option-Keeps P q _ _
          (>>=-Keeps P _ _ (attempt-Keeps P _ (create-Keeps P x.sha256 _ _ k)) after_create-Keeps)
          (λ p. accept_marker-Keeps p.0)))

-- Whatever other processes do, and however it ends, `Init` changes no stored object, the marker
-- included: an object that is stored when it starts, and that the other processes leave alone, is
-- stored with the same bytes when it ends.
pub init-write_once :
    (x : Externals) (json : Json Marker) (fresh : Marker) (k c : Bytes) (w : World)
    → Stable (λ o. o k ≡ some c) w.events
    → w.objects k ≡ some c
    → (init x json fresh w).1.objects k ≡ some c
init-write_once x json fresh k c w s h =
    (init-Keeps (λ o. o k ≡ some c) x json fresh
      (λ o n p. write_other o marker_object_key (marker_bytes json fresh) k (λ e. cc) ∙ p) w
      (s, h)).1

-- ===== src/Depot/Publish/Quiet.antt =====
-- Publication where nothing comes between and nothing fails: `setLatest` succeeds, and the pointer
-- that it leaves is the one that was published.
use aha.Prelude.{
  ℕ, suc, true, false, List, [], ◌∷◌, ◌++◌, none, some, Result, ok, err, Bool-cases, inl, inr, ◌≡◌,
  refl, sym, ap, ◌∙◌, arith,
}
use aha.Text.{Bytes, text_eq, text_eq_refl, text_eq_iff, contains}
use aha.Encoding.Hex
use aha.Cas.{is_valid_key}
use aha.Model.Identity.Keys.{IsDigest}
use aha.Model.Snapshot.Codec.{ManifestSha256}
use aha.Depot.Keys.{latest_pointer_key, machines_index_key}
use aha.Depot.Keys.Namespaces.{index_apart}
use aha.Depot.Store.{
  Objects, write, World, Depot, DepotError, ◌>>=◌, pure, raise, attempt, put_conditional,
  local_etag,
}
use aha.Depot.Store.Laws.{write_other, write_same, hex_not_empty}
use aha.Depot.Store.Quiet.{
  quietly, check_context-quietly, get-present, get-absent, put_conditional-absent,
  put_conditional-present,
}
use aha.Depot.Codec.{
  CodecError, Externals, decode_latest_pointer, encode_machines_index, decode_machines_index,
}
use aha.Depot.Codec.RoundTrip.{decode-encode_latest_pointer}
use aha.Depot.Machine.{latest, expect_absent, expect_sha, PublishedSnapshot}
use aha.Depot.Publish.{
  after_write, judge, read_index, register, ensure_in_machines_index, point, set_latest, Pointer,
  up_to_date, stale, replace, judge_absent, judge_present, is_expected, is_valid_expectation, again,
}

not_empty :
    (sha256 : Bytes → Bytes)
    → IsDigest sha256
    → (b : Bytes) → text_eq (local_etag sha256 b) [] ≡ false
unfolding local_etag
not_empty sha256 d b =
    ground (arith, hex_not_empty sha256 d b, text_eq_iff (Hex.encode (sha256 b)) [])

module _ (x : Externals) where
  -- The index of machines, where it can be read and where the machine can be added to it.
  pub data Registers (o : Objects) (machine : Bytes) : Type 0 where
    no_index :
        {b : Bytes}
        → o machines_index_key ≡ none
        → encode_machines_index x (machine ∷ []) ≡ ok b
        → Registers o machine
    listed :
        {b : Bytes} {ms : List Bytes}
        → o machines_index_key ≡ some b
        → decode_machines_index x b ≡ ok ms
        → contains ms machine ≡ true
        → Registers o machine
    unlisted :
        {b c : Bytes} {ms : List Bytes}
        → o machines_index_key ≡ some b
        → decode_machines_index x b ≡ ok ms
        → contains ms machine ≡ false
        → encode_machines_index x (ms ++ machine ∷ []) ≡ ok c
        → Registers o machine

  -- Only the index has changed.
  pub data IndexOnly (o : Objects) : Objects → Type 0 where
    same : IndexOnly o o
    added : (b : Bytes) → IndexOnly o (write o machines_index_key b)

  register-quietly :
      IsDigest x.sha256
      → (n : ℕ) (o : Objects) (machine : Bytes) → Registers o machine
      → (q : Objects) × (register x (suc n) machine (quietly o) ≡ (ok tt, quietly q))
        × IndexOnly o q
  unfolding register read_index again after_write ◌>>=◌ pure attempt contains text_eq
  register-quietly d n o machine (no_index {b} e k) = (
    write o machines_index_key b,
    rw
        (
          check_context-quietly o,
          get-absent x.sha256 o machines_index_key e,
          k,
          put_conditional-absent x.sha256 o machines_index_key b e,
        )
        refl,
    added b,
  )
  register-quietly d n o machine (listed {b} e k i) = (
    o,
    rw (check_context-quietly o, get-present x.sha256 o machines_index_key b e, k, i) refl,
    same,
  )
  register-quietly d n o machine (unlisted {b} {c} e k i l) = (
    write o machines_index_key c,
    rw
        (
          check_context-quietly o,
          get-present x.sha256 o machines_index_key b e,
          k,
          i,
          l,
          put_conditional-present x.sha256 o machines_index_key c b e (not_empty x.sha256 d b),
        )
        refl,
    added c,
  )

  -- What lets a publication through: there is no pointer, as expected; or the pointer is the published
  -- identity already, is the expected one, or cannot be decoded.
  pub data MayPoint (o : Objects) (p : PublishedSnapshot) : Type 0 where
    no_pointer :
        o (latest_pointer_key x.sha256 p.machine) ≡ none → p.expected ≡ expect_absent → MayPoint o p
    parent_pointer :
        {b : Bytes} {s : ManifestSha256}
        → o (latest_pointer_key x.sha256 p.machine) ≡ some b
        → decode_latest_pointer x b ≡ ok s
        → p.expected ≡ expect_sha s
        → MayPoint o p
    published_pointer :
        {b : Bytes}
        → o (latest_pointer_key x.sha256 p.machine) ≡ some b
        → decode_latest_pointer x b ≡ ok p.sha
        → MayPoint o p
    undecodable_pointer :
        {b : Bytes} {c : CodecError}
        → o (latest_pointer_key x.sha256 p.machine) ≡ some b
        → decode_latest_pointer x b ≡ err c
        → MayPoint o p

  -- What `setLatest` does about the pointer: it replaces it, or finds it up to date.
  data Judged (o : Objects) (p : PublishedSnapshot) : Type 0 where
    writes_first :
        o (latest_pointer_key x.sha256 p.machine) ≡ none → judge x p none ≡ replace [] → Judged o p
    writes_over :
        {b : Bytes}
        → o (latest_pointer_key x.sha256 p.machine) ≡ some b
        → judge x p (some (b, local_etag x.sha256 b)) ≡ replace (local_etag x.sha256 b)
        → Judged o p
    writes_nothing :
        {b : Bytes}
        → o (latest_pointer_key x.sha256 p.machine) ≡ some b
        → decode_latest_pointer x b ≡ ok p.sha
        → judge x p (some (b, local_etag x.sha256 b)) ≡ up_to_date
        → Judged o p

  -- A write of the pointer leaves the index as it is.
  Registers-write :
      IsDigest x.sha256
      → (o : Objects) (m machine b : Bytes) → Registers o machine
      → Registers (write o (latest_pointer_key x.sha256 m) b) machine
  Registers-write d o m machine b r = kept r
    where
      other : write o (latest_pointer_key x.sha256 m) b machines_index_key ≡ o machines_index_key
      other =
          write_other o (latest_pointer_key x.sha256 m) b machines_index_key
            (λ e. (index_apart x.sha256 d m []).1 (sym e))

      kept : Registers o machine → Registers (write o (latest_pointer_key x.sha256 m) b) machine
      kept (no_index e k) = no_index (other ∙ e) k
      kept (listed e k i) = listed (other ∙ e) k i
      kept (unlisted e k i l) = unlisted (other ∙ e) k i l

  pointer-IndexOnly :
      IsDigest x.sha256
      → (o q : Objects) (m : Bytes) → IndexOnly o q
      → q (latest_pointer_key x.sha256 m) ≡ o (latest_pointer_key x.sha256 m)
  pointer-IndexOnly d o q m same = refl
  pointer-IndexOnly d o q m (added b) =
      write_other o machines_index_key b (latest_pointer_key x.sha256 m)
        (index_apart x.sha256 d m []).1

  -- What `point` does about the pointer that it found.
  abbrev follow : ℕ → PublishedSnapshot → Bytes → Pointer → Depot (Unit {0})
  follow n p pointer j = elim j [
    | up_to_date ↦ ensure_in_machines_index x p.machine
    | stale ↦ raise (DepotError.stale_publication p.machine)
    | replace etag ↦ do
      written ←
          attempt (put_conditional x.sha256 (latest_pointer_key x.sha256 p.machine) pointer etag)
      after_write written (ensure_in_machines_index x p.machine)
          (again n (latest_pointer_key x.sha256 p.machine) (point x n p pointer))
  ]

  follow-replace :
      (n : ℕ) (p : PublishedSnapshot) (pointer etag : Bytes) (j : Pointer) (o : Objects)
      {end : Result DepotError (Unit {0}) × World}
      → j ≡ replace etag
      → put_conditional x.sha256 (latest_pointer_key x.sha256 p.machine) pointer etag (quietly o)
        ≡ (ok tt, quietly (write o (latest_pointer_key x.sha256 p.machine) pointer))
      → ensure_in_machines_index x p.machine
          (quietly (write o (latest_pointer_key x.sha256 p.machine) pointer))
        ≡ end
      → follow n p pointer j (quietly o) ≡ end
  unfolding after_write ◌>>=◌ attempt
  follow-replace n p pointer etag j o e put run =
      ap (λ k. follow n p pointer k (quietly o)) e ∙ rw put run

  judge-absent : (p : PublishedSnapshot) → p.expected ≡ expect_absent → judge x p none ≡ replace []
  unfolding judge judge_absent
  judge-absent p h = ap judge_absent h

  judge-present :
      (p : PublishedSnapshot) (b etag : Bytes) (s : ManifestSha256)
      → decode_latest_pointer x b ≡ ok s
      → text_eq s.value p.sha.value ≡ false
      → p.expected ≡ expect_sha s
      → judge x p (some (b, etag)) ≡ replace etag
  unfolding judge judge_present is_expected
  judge-present p b etag s k t h =
      rw (k, judge_present, t, h, is_expected, text_eq_refl s.value) refl

  judge-published :
      (p : PublishedSnapshot) (b etag : Bytes)
      → decode_latest_pointer x b ≡ ok p.sha
      → judge x p (some (b, etag)) ≡ up_to_date
  unfolding judge judge_present
  judge-published p b etag k = rw (k, judge_present, text_eq_refl p.sha.value) refl

  judge-undecodable :
      (p : PublishedSnapshot) (b etag : Bytes) (e : CodecError)
      → decode_latest_pointer x b ≡ err e
      → judge x p (some (b, etag)) ≡ replace etag
  unfolding judge judge_present
  judge-undecodable p b etag e k = rw (k, judge_present) refl

  MayPoint-Judged : (o : Objects) (p : PublishedSnapshot) → MayPoint o p → Judged o p
  MayPoint-Judged o p (no_pointer e h) = writes_first e (judge-absent p h)
  MayPoint-Judged o p (published_pointer {b} e k) = writes_nothing e k (judge-published p b _ k)
  MayPoint-Judged o p (undecodable_pointer {b} {c} e k) =
      writes_over e (judge-undecodable p b _ c k)
  MayPoint-Judged o p (parent_pointer {b} {s} e k h) =
      elim (Bool-cases (text_eq s.value p.sha.value)) [
        | inr t ↦ writes_over e (judge-present p b _ s k t h)
        | inl t ↦
            let same : s ≡ p.sha =
              ap (λ v. record { value = v }) ((text_eq_iff s.value p.sha.value).0 t) in
            let k' = k ∙ ap ok same in writes_nothing e k' (judge-published p b _ k')
      ]

  -- `point` ends well where the pointer that it found lets it through.
  point-quietly :
      IsDigest x.sha256
      → (n : ℕ) (o : Objects) (p : PublishedSnapshot) (pointer : Bytes) → Judged o p
      → Registers o p.machine
      → decode_latest_pointer x pointer ≡ ok p.sha
      → (q : Objects) × (point x (suc n) p pointer (quietly o) ≡ (ok tt, quietly q))
        × (b : Bytes) × (q (latest_pointer_key x.sha256 p.machine) ≡ some b)
        × (decode_latest_pointer x b ≡ ok p.sha)
  unfolding point after_write ◌>>=◌ pure attempt ensure_in_machines_index
  point-quietly d n o p pointer (writes_nothing {b} e k j) r l =
      let key = latest_pointer_key x.sha256 p.machine in
      let (q, run, only) = register-quietly d 11 o p.machine r in
      (
        q,
        rw (check_context-quietly o, get-present x.sha256 o key b e)
            (ap (λ t. follow n p pointer t (quietly o)) j ∙ run),
        b,
        pointer-IndexOnly d o q p.machine only ∙ e,
        k,
      )
  point-quietly d n o p pointer (writes_first e j) r l =
      let key = latest_pointer_key x.sha256 p.machine in
      let (q, run, only) =
        register-quietly d 11 (write o key pointer) p.machine
          (Registers-write d o p.machine p.machine pointer r) in
      (
        q,
        rw (check_context-quietly o, get-absent x.sha256 o key e)
            (follow-replace n p pointer [] (judge x p none) o j
              (put_conditional-absent x.sha256 o key pointer e) run),
        pointer,
        pointer-IndexOnly d (write o key pointer) q p.machine only ∙ write_same o key pointer,
        l,
      )
  point-quietly d n o p pointer (writes_over {b} e j) r l =
      let key = latest_pointer_key x.sha256 p.machine in
      let (q, run, only) =
        register-quietly d 11 (write o key pointer) p.machine
          (Registers-write d o p.machine p.machine pointer r) in
      (
        q,
        rw (check_context-quietly o, get-present x.sha256 o key b e)
            (follow-replace n p pointer (local_etag x.sha256 b)
              (judge x p (some (b, local_etag x.sha256 b))) o j
              (put_conditional-present x.sha256 o key pointer b e (not_empty x.sha256 d b)) run),
        pointer,
        pointer-IndexOnly d (write o key pointer) q p.machine only ∙ write_same o key pointer,
        l,
      )

  latest-quietly :
      (o : Objects) (machine b : Bytes) (sha : ManifestSha256)
      → o (latest_pointer_key x.sha256 machine) ≡ some b
      → decode_latest_pointer x b ≡ ok sha
      → latest x machine (quietly o) ≡ (ok (some sha), quietly o)
  unfolding latest ◌>>=◌ pure attempt
  latest-quietly o machine b sha e k =
      rw (get-present x.sha256 o (latest_pointer_key x.sha256 machine) b e, k) refl

  -- Where nothing comes between the calls and none of them fails, and the digest is one of 32 bytes:
  -- `setLatest` with a valid identity and expectation succeeds when the pointer is the expected one, is
  -- the published identity already, cannot be decoded, or is absent as expected, and the machine stands in the index of machines or can be added to it. And
  -- `Latest` then returns the published identity.
  pub set_latest-quietly :
      IsDigest x.sha256
      → (o : Objects) (p : PublishedSnapshot) → is_valid_key p.sha.value ≡ true
      → is_valid_expectation p.expected ≡ true
      → MayPoint o p
      → Registers o p.machine
      → (q : Objects) × (set_latest x p.machine p (quietly o) ≡ (ok tt, quietly q))
        × (latest x p.machine (quietly q) ≡ (ok (some p.sha), quietly q))
  unfolding set_latest ◌>>=◌ pure
  set_latest-quietly d o p v w m r =
      let (pointer, k, l) = decode-encode_latest_pointer x p.sha v in
      let (q, run, b, at, c) = point-quietly d 11 o p pointer (MayPoint-Judged o p m) r l in
      (q, rw (text_eq_refl p.machine, v, w, k) run, latest-quietly q p.machine b p.sha at c)

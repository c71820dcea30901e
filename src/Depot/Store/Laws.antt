-- ===== src/Depot/Store/Laws.antt =====
-- What the two writes of the object store do to the objects, at every outcome: success, a lost race
-- and a failure. Other processes act between the calls.
use aha.Prelude.{
  true, false, [], Option, none, some, Result, ok, err, ◌≡◌, ◌≢◌, ◌⊎◌, inl, inr, arith, ap, sym,
  ◌∙◌, refl, Bool-cases, length,
}
use aha.Encoding.Hex
use aha.Encoding.Hex.Laws.{length-encode}
use aha.Text.{Bytes, text_eq, text_eq_iff}
use aha.Model.Identity.Keys.{IsDigest, encode_inj}
use aha.Depot.Store.{
  Objects, write, World, DepotError, settle, primitive, get, put_if_absent, put_conditional,
  local_etag, write_absent, write_conditional, read_object,
}

-- The objects that the next call finds, after what other processes did before it.
pub found : World → Objects
unfolding settle
found w = (settle w.events w).1.objects

pub write_other : (o : Objects) (key b k : Bytes) → key ≢ k → write o key b k ≡ o k
unfolding write
write_other o key b k n = ground (arith, text_eq_iff key k)

pub write_same : (o : Objects) (key b : Bytes) → write o key b key ≡ some b
unfolding write
write_same o key b = ground (arith, text_eq_iff key key)

-- A primitive call: the objects it leaves are those that it found, or those that its function made of
-- them, whose result it then returns.
pub primitive_cases :
    {A : Type 0} (f : Objects → Result DepotError A × Objects) (w : World)
    → (((primitive f w).0 ≡ err DepotError.io_failed) × ((primitive f w).1.objects ≡ found w))
      ⊎ (((primitive f w).0 ≡ (f (found w)).0) × ((primitive f w).1.objects ≡ (f (found w)).1))
unfolding primitive found
primitive_cases f w = elim (Bool-cases (settle w.events w).0) [
  | inl e ↦ inl (rw e refl, rw e refl)
  | inr e ↦ inr (rw e refl, rw e refl)
]

write_absent_cases :
    (o : Objects) (key b : Bytes) (q : Option Bytes)
    → o key ≡ q
    → ((write_absent o key b).0 ≡ ok true)
        × (o key ≡ none)
        × ((write_absent o key b).1 ≡ write o key b)
      ⊎ ((write_absent o key b).0 ≡ ok false) × (o key ≢ none) × ((write_absent o key b).1 ≡ o)
unfolding write_absent
write_absent_cases o key b none e = inl (rw (e, write_absent) refl, e, rw (e, write_absent) refl)
write_absent_cases o key b (some c) e =
    inr (rw (e, write_absent) refl, λ n. cc, rw (e, write_absent) refl)

-- The three outcomes of `putBytesIfAbsent`.
pub put_if_absent_cases :
    (key b : Bytes) (w : World)
    → ((put_if_absent key b w).0 ≡ ok true)
        × (found w key ≡ none)
        × ((put_if_absent key b w).1.objects ≡ write (found w) key b)
      ⊎ (((put_if_absent key b w).0 ≡ ok false)
            × (found w key ≢ none)
            × ((put_if_absent key b w).1.objects ≡ found w)
          ⊎ ((put_if_absent key b w).0 ≡ err DepotError.io_failed)
            × ((put_if_absent key b w).1.objects ≡ found w))
unfolding put_if_absent write_absent
put_if_absent_cases key b w = elim (primitive_cases (λ o. write_absent o key b) w) [
  | inl h ↦ inr (inr h)
  | inr (r, e) ↦ elim (write_absent_cases (found w) key b (found w key) refl) [
    | inl (p, n, q) ↦ inl (r ∙ p, n, e ∙ q)
    | inr (p, n, q) ↦ inr (inl (r ∙ p, n, e ∙ q))
  ]
]

pub hex_not_empty :
    (sha256 : Bytes → Bytes) → IsDigest sha256 → (b : Bytes) → Hex.encode (sha256 b) ≢ []
hex_not_empty sha256 d b e = omega (arith, length-encode (sha256 b), (d b).0, ap length e)

module _ (sha256 : Bytes → Bytes) where
  -- What an ETag asks of an object: the empty one that it is absent.
  abbrev pub Matches : Bytes → Option Bytes → Type 0
  Matches etag none = etag ≡ []
  Matches etag (some c) = (etag ≢ []) × (local_etag sha256 c ≡ etag)

  write_conditional_cases :
      (o : Objects) (key b etag : Bytes) (q : Option Bytes)
      → o key ≡ q
      → ((write_conditional sha256 o key b etag).0 ≡ ok tt)
          × Matches etag q
          × ((write_conditional sha256 o key b etag).1 ≡ write o key b)
        ⊎ ((write_conditional sha256 o key b etag).0 ≡ err DepotError.precondition_failed)
          × ((write_conditional sha256 o key b etag).1 ≡ o)
  unfolding write_conditional
  write_conditional_cases o key b etag none e = elim (Bool-cases (text_eq etag [])) [
    | inl h ↦ inl (
      rw (e, write_conditional, h) refl,
      (text_eq_iff etag []).0 h,
      rw (e, write_conditional, h) refl,
    )
    | inr h ↦ inr (rw (e, write_conditional, h) refl, rw (e, write_conditional, h) refl)
  ]
  write_conditional_cases o key b etag (some c) e = elim (Bool-cases (text_eq etag [])) [
    | inl h ↦ inr (rw (e, write_conditional, h) refl, rw (e, write_conditional, h) refl)
    | inr h ↦ elim (Bool-cases (text_eq (local_etag sha256 c) etag)) [
      | inl g ↦ inl (
        rw (e, write_conditional, h, g) refl,
        (λ n. cc (h, (text_eq_iff etag []).1 n), (text_eq_iff (local_etag sha256 c) etag).0 g),
        rw (e, write_conditional, h, g) refl,
      )
      | inr g ↦ inr (rw (e, write_conditional, h, g) refl, rw (e, write_conditional, h, g) refl)
    ]
  ]

  -- The three outcomes of `putBytesConditional`.
  pub put_conditional_cases :
      (key b etag : Bytes) (w : World)
      → ((put_conditional sha256 key b etag w).0 ≡ ok tt)
          × Matches etag (found w key)
          × ((put_conditional sha256 key b etag w).1.objects ≡ write (found w) key b)
        ⊎ (((put_conditional sha256 key b etag w).0 ≡ err DepotError.precondition_failed)
              × ((put_conditional sha256 key b etag w).1.objects ≡ found w)
            ⊎ ((put_conditional sha256 key b etag w).0 ≡ err DepotError.io_failed)
              × ((put_conditional sha256 key b etag w).1.objects ≡ found w))
  unfolding put_conditional write_conditional
  put_conditional_cases key b etag w =
      elim (primitive_cases (λ o. write_conditional sha256 o key b etag) w) [
        | inl h ↦ inr (inr h)
        | inr (r, e) ↦ elim (write_conditional_cases (found w) key b etag (found w key) refl) [
          | inl (p, n, q) ↦ inl (r ∙ p, n, e ∙ q)
          | inr (p, q) ↦ inr (inl (r ∙ p, e ∙ q))
        ]
      ]

  read_object-eq-ok :
      (o : Objects) (key b etag : Bytes) (q : Option Bytes)
      → o key ≡ q
      → read_object sha256 o key ≡ ok (b, etag)
      → (q ≡ some b) × (etag ≡ local_etag sha256 b)
  unfolding read_object
  read_object-eq-ok o key b etag none e h = cc (rw (e, read_object) at h)
  read_object-eq-ok o key b etag (some c) e h =
      let g : ◌≡◌ {A = Result DepotError (Bytes × Bytes)} (ok (c, local_etag sha256 c))
          (ok (b, etag)) =
        rw (e, read_object) at h in
      (cc (g), cc (g))

  read_found :
      (key b etag : Bytes) (w w' : World)
      → get sha256 key w ≡ (ok (b, etag), w')
      → (found w key ≡ some b) × (etag ≡ local_etag sha256 b)
  unfolding get read_object
  read_found key b etag w w' h = elim (primitive_cases (λ o. (read_object sha256 o key, o)) w) [
    | inl (r, e) ↦ cc (r, ap (λ p. p.0) h)
    | inr (r, e) ↦
        read_object-eq-ok (found w) key b etag (found w key) refl (sym r ∙ ap (λ p. p.0) h)
  ]

  same_object :
      IsDigest sha256
      → (b etag : Bytes) (q : Option Bytes) → etag ≡ local_etag sha256 b
      → Matches etag q
      → (cur : Bytes) × (q ≡ some cur) × ((cur ≡ b) ⊎ ((cur ≢ b) × (sha256 cur ≡ sha256 b)))
  unfolding local_etag
  same_object d b etag none e m = absurd (hex_not_empty sha256 d b (sym e ∙ m))
  same_object d b etag (some c) e (n, m) = elim (Bool-cases (text_eq c b)) [
    | inl h ↦ (c, refl, inl ((text_eq_iff c b).0 h))
    | inr h ↦ (
      c,
      refl,
      inr (
        λ p. cc (h, (text_eq_iff c b).1 p),
        encode_inj sha256 (sha256 c) (sha256 b) (d c).1 (d b).1 (m ∙ e),
      ),
    )
  ]

  changed :
      (key c etag : Bytes) (v v' : World)
      → put_conditional sha256 key c etag v ≡ (ok tt, v')
      → Matches etag (found v key) × (v'.objects ≡ write (found v) key c)
  changed key c etag v v' h = elim (put_conditional_cases key c etag v) [
    | inl (r, m, e) ↦ (m, ap (λ p. p.1.objects) (sym h) ∙ e)
    | inr (inl (r, e)) ↦ cc (r, ap (λ p. p.0) h)
    | inr (inr (r, e)) ↦ cc (r, ap (λ p. p.0) h)
  ]

  -- A conditional write under the ETag of an earlier read replaces the object that was read, and
  -- nothing else: whatever other processes did in between, if the write succeeds then it found at the
  -- key the bytes that the read returned, or other bytes with the same SHA-256 digest, and it left
  -- the other objects as it found them.
  pub put_conditional-get :
      IsDigest sha256
      → (key b etag c : Bytes) (w w' v v' : World) → get sha256 key w ≡ (ok (b, etag), w')
      → put_conditional sha256 key c etag v ≡ (ok tt, v')
      → ((cur : Bytes) × (found v key ≡ some cur)
          × ((cur ≡ b) ⊎ ((cur ≢ b) × (sha256 cur ≡ sha256 b))))
        × (v'.objects ≡ write (found v) key c)
  put_conditional-get d key b etag c w w' v v' hg hp =
      let (m, e) = changed key c etag v v' hp in
      let (_, t) = read_found key b etag w w' hg in (same_object d b etag (found v key) t m, e)

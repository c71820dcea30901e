-- ===== src/Depot/Address/RoundTrip.antt =====
-- An address that is accepted, written and parsed again.
use aha.Prelude.{
  Bool, true, false, not, ◌&&◌, ◌||◌, [], ◌∷◌, ◌++◌, Option, none, some, length, ltb, if◌then◌else◌,
  ◌≡◌, ◌⊎◌, ◌≤◌, inl, inr, refl, sym, ap, subst, ◌∙◌, Bool-cases, arith, All-append, Result, ok,
  err, ◌>>=◌, >>=-eq-ok, ok_inj, &&-true,
}
use aha.Text.{Bytes, codes, text_eq, text_eq_iff, has_prefix, contains_text}
use aha.Text.Space.{trim_space}
use aha.Text.Space.Printable.{IsPrintable, trim_space-IsPrintable}
use aha.Depot.Address.{
  Address, AddressError, local, r2, default_r2_bucket, default_address, address_text, cut_colon,
  is_bucket_byte, all_bucket_bytes, ends_in_hyphen, looks_like_placeholder, parse_r2_bucket,
  checked_address, cut_address, parse_address,
}

-- `if c { return err }` that was passed.
guard-ok :
    {A : Type 0} (c : Bool) (e : AddressError) (k : Result AddressError A) {a : A}
    → (if c then err e else k) ≡ ok a
    → (c ≡ false) × (k ≡ ok a)
guard-ok true e k h = cc
guard-ok false e k h = (refl, h)

kept-ok :
    {A : Type 0} (c : Bool) (e : AddressError) (x : A) {a : A}
    → (if c then ok x else err e) ≡ ok a
    → (c ≡ true) × (x ≡ a)
kept-ok true e x h = (refl, ok_inj h)
kept-ok false e x h = cc

all_bucket_bytes-IsPrintable : (s : Bytes) → all_bucket_bytes s ≡ true → IsPrintable s
unfolding all_bucket_bytes
all_bucket_bytes-IsPrintable [] h = tt
all_bucket_bytes-IsPrintable (c ∷ s) h =
    let (x, y) = &&-true (is_bucket_byte c) (all_bucket_bytes s) h in
    ((ground arith, ground arith), all_bucket_bytes-IsPrintable s y)

nonempty :
    (k l : Bytes)
    → text_eq k local ≡ true
    → (text_eq k local && text_eq l []) ≡ false
    → text_eq l [] ≡ false
nonempty k l h n = ground arith

module _ (to_lower : Bytes → Bytes) where
  abbrev pub is_wrong_shape : Bytes → Bool
  is_wrong_shape b =
      ltb (length b) 3 || ltb 63 (length b) || has_prefix b (codes "-") || ends_in_hyphen b

  -- 3 to 63 lower-case letters, digits and hyphens, with none at either end, and no placeholder.
  abbrev pub IsBucket : Bytes → Type 0
  IsBucket b =
      (looks_like_placeholder to_lower b ≡ false)
      × (is_wrong_shape b ≡ false)
      × (all_bucket_bytes b ≡ true)

  abbrev pub IsAddress : Address → Type 0
  IsAddress a =
      ((a.type ≡ local) × (text_eq a.location [] ≡ false)) ⊎ ((a.type ≡ r2) × IsBucket a.location)

  parse_r2_bucket-IsBucket :
      (s : Bytes) {b : Bytes} → parse_r2_bucket to_lower s ≡ ok b → IsBucket b
  unfolding parse_r2_bucket
  parse_r2_bucket-IsBucket s {b} h =
      let (b1, h1) = guard-ok (looks_like_placeholder to_lower (trim_space s)) _ _ h in
      let (b2, h2) = guard-ok (is_wrong_shape (trim_space s)) _ _ h1 in
      let (b3, e) = kept-ok (all_bucket_bytes (trim_space s)) _ (trim_space s) h2 in
      subst IsBucket e (b1, b2, b3)

  parse_r2_bucket-again : (b : Bytes) → IsBucket b → parse_r2_bucket to_lower b ≡ ok b
  unfolding parse_r2_bucket
  parse_r2_bucket-again b (p, w, c) =
      rw (trim_space-IsPrintable b (all_bucket_bytes-IsPrintable b c), p, w, c) refl

  kind_of :
      (k : Bytes)
      → (not (text_eq k local) && not (text_eq k r2)) ≡ false
      → text_eq k r2 ≡ false
      → k ≡ local
  kind_of k h n = (text_eq_iff k local).0 (ground arith)

  checked_address-IsAddress :
      (kind place : Bytes) {a : Address} → checked_address to_lower kind place ≡ ok a → IsAddress a
  unfolding checked_address
  checked_address-IsAddress kind place {a} h =
      let loc : Bytes = if text_eq kind r2 && text_eq place [] then default_r2_bucket else place in
      let (b1, h1) = guard-ok (text_eq kind local && text_eq loc []) _ _ h in
      let (b2, h2) = guard-ok (not (text_eq kind local) && not (text_eq kind r2)) _ _ h1 in
      let named : Result AddressError Address =
        parse_r2_bucket to_lower loc >>= λ bucket. ok (record { type = kind; location = bucket }) in
      let pick : Bool → Result AddressError Address =
        λ b. if b then named else ok (record { type = kind; location = loc }) in
      elim (Bool-cases (text_eq kind r2)) [
        | inl e ↦
            let (bucket, p, q) =
              >>=-eq-ok (parse_r2_bucket to_lower loc) _ (sym (ap pick e) ∙ h2) in
            subst IsAddress (ok_inj q)
              (inr ((text_eq_iff kind r2).0 e, parse_r2_bucket-IsBucket loc p))
        | inr e ↦
            let k = kind_of kind b2 e in
            subst IsAddress (ok_inj (sym (ap pick e) ∙ h2))
              (inl (k, nonempty kind loc ((text_eq_iff kind local).1 k) b1))
      ]

  not_blank : (b : Bytes) → is_wrong_shape b ≡ false → text_eq b [] ≡ false
  unfolding text_eq
  not_blank [] h = cc
  not_blank (c ∷ b) h = refl

  checked_local :
      (loc : Bytes)
      → text_eq loc [] ≡ false
      → checked_address to_lower local loc ≡ ok (record { type = local; location = loc })
  unfolding checked_address text_eq
  checked_local loc n = rw n refl

  checked_r2 :
      (b : Bytes)
      → IsBucket b
      → checked_address to_lower r2 b ≡ ok (record { type = r2; location = b })
  unfolding checked_address text_eq
  checked_r2 b k = rw (not_blank b k.1, parse_r2_bucket-again b k) refl

  module _ (lowered : (s : Bytes) → all_bucket_bytes s ≡ true → to_lower s ≡ s) where
    default-IsBucket : IsBucket default_r2_bucket
    unfolding looks_like_placeholder all_bucket_bytes text_eq trim_space contains_text
        ends_in_hyphen has_prefix
    default-IsBucket = (rw (lowered default_r2_bucket refl) refl, refl, refl)

    parse_address-IsAddress :
        (s : Bytes) {a : Address} → parse_address to_lower s ≡ ok a → IsAddress a
    unfolding parse_address text_eq
    parse_address-IsAddress s h =
        let t = trim_space s in chosen t (text_eq t []) (text_eq t r2) refl h
      where
        cut :
            (t : Bytes) (o : Option (Bytes × Bytes)) {a : Address}
            → text_eq t [] ≡ false
            → cut_address to_lower t o ≡ ok a
            → IsAddress a
        cut t none n q = subst IsAddress (ok_inj q) (inl (refl, n))
        cut t (some (k, l)) n q =
            checked_address-IsAddress (to_lower (trim_space k)) (trim_space l) q

        chosen :
            (t : Bytes) (b c : Bool) {a : Address}
            → text_eq t [] ≡ b
            → (if b
                then ok default_address
                else if c
                then ok (record { type = r2; location = default_r2_bucket })
                else cut_address to_lower t (cut_colon t))
              ≡ ok a
            → IsAddress a
        chosen t true c n q = subst IsAddress (ok_inj q) (inl (refl, refl))
        chosen t false true n q = subst IsAddress (ok_inj q) (inr (refl, default-IsBucket))
        chosen t false false n q = cut t (cut_colon t) n q

    address_text-IsPrintable :
        (kind loc : Bytes)
        → IsPrintable kind
        → IsPrintable loc
        → IsPrintable (address_text (record { type = kind; location = loc }))
    unfolding address_text
    address_text-IsPrintable kind loc p q =
        All-append (λ c. (33 ≤ c) × (c ≤ 126)) (kind ++ codes ":") loc
          (All-append (λ c. (33 ≤ c) × (c ≤ 126)) kind (codes ":") p
            ((omega arith, omega arith), tt))
          q

    parse-local :
        (loc : Bytes)
        → text_eq loc [] ≡ false
        → IsPrintable loc
        → parse_address to_lower (address_text (record { type = local; location = loc }))
          ≡ ok (record { type = local; location = loc })
    unfolding parse_address address_text cut_colon text_eq all_bucket_bytes
    parse-local loc n p =
        rw
          (
            trim_space-IsPrintable (local ++ codes ":" ++ loc)
                (address_text-IsPrintable local loc (all_bucket_bytes-IsPrintable local refl) p),
            trim_space-IsPrintable local (all_bucket_bytes-IsPrintable local refl),
            lowered local refl,
            trim_space-IsPrintable loc p,
          )
          (checked_local loc n)

    parse-r2 :
        (b : Bytes)
        → IsBucket b
        → parse_address to_lower (address_text (record { type = r2; location = b }))
          ≡ ok (record { type = r2; location = b })
    unfolding parse_address address_text cut_colon text_eq all_bucket_bytes
    parse-r2 b k =
        let p = all_bucket_bytes-IsPrintable b k.2 in
        rw
          (
            trim_space-IsPrintable (r2 ++ codes ":" ++ b)
                (address_text-IsPrintable r2 b (all_bucket_bytes-IsPrintable r2 refl) p),
            trim_space-IsPrintable r2 (all_bucket_bytes-IsPrintable r2 refl),
            lowered r2 refl,
            trim_space-IsPrintable b p,
          )
          (checked_r2 b k)

    Returns : Bytes → Bytes → Type 0
    Returns kind loc =
        parse_address to_lower (address_text (record { type = kind; location = loc }))
        ≡ ok (record { type = kind; location = loc })

    again :
        (a : Address)
        → IsAddress a
        → IsPrintable a.location
        → parse_address to_lower (address_text a) ≡ ok a
    unfolding Returns
    again a (inl (t, n)) p = subst (λ k. Returns k a.location) (sym t) (parse-local a.location n p)
    again a (inr (t, k)) p = subst (λ k. Returns k a.location) (sym t) (parse-r2 a.location k)

    -- Where `strings.ToLower` leaves lower-case letters, digits and hyphens as they are: an address that
    -- `ParseAddress` returns is of kind `local`, with a location that is not empty, or of kind `r2`, with a
    -- bucket of 3 to 63 lower-case letters, digits and hyphens, none of them at an end, that is
    -- no placeholder. And where its location has only characters from `!` to `~`, so no space, `ParseAddress` takes the
    -- text of the address back to it.
    pub parse-address_text :
        (s : Bytes) {a : Address}
        → parse_address to_lower s ≡ ok a
        → IsAddress a × (IsPrintable a.location → parse_address to_lower (address_text a) ≡ ok a)
    parse-address_text s {a} h =
        let valid = parse_address-IsAddress s h in (valid, λ p. again a valid p)

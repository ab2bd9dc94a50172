-- ===== src/Tlsid/Pinned.antt =====
-- The key outlives its certificates, so the pin that phones keep stays right.
use docker_mobile.Base.{
  ℕ, ◌+◌, ◌≡◌, refl, sym, ap, ◌∙◌, subst, ◌≢◌, inl, inr, Bool, true, false, Option, none, some,
  arith, ltb, Option-cases, Text, nat_eq, text_eq, lookup, ne_of_==, ok, err, err≢ok, ok-inv,
  split_if,
}
use docker_mobile.State.Dir.{Folder, temp_prefix, temp_name, write_file}
use docker_mobile.State.Dir.Write.{write_file_other, write_file-ok}
use docker_mobile.Tlsid.{
  key_file, cert_file, key_type, cert_type, validity, renew_before, Leaf, Library, TlsError,
  Certificate, Read, missing, unreadable, contents, read_file, of_type, parse_key, Outside, Loaded,
  certificate, stored_cert, store_cert, issue, stored_key, store_key, create, use_or_renew,
  paired_cert, with_key, load_from, load_or_create, hashed, fingerprint_of_der, fingerprint_of,
  write_failed, parse_new_failed,
}

-- What the libraries promise: a key and a block are read back, a certificate that is created is for
-- its key, and so is one that belongs to a key.
pub record Laws {Key : Type 0} (lib : Library Key) : Type 0 where
  pub marshalled :
      (k : Key) (der : Text) → lib.marshal_key k ≡ some der → lib.parse_ec_key der ≡ some k
  pub decoded :
      (kind bytes : Text) → lib.decode_pem (lib.encode_pem kind bytes) ≡ some (kind, bytes)
  pub created :
      (k : Key) (before after : ℕ) (der : Text) (leaf : Leaf)
      → lib.create_cert k before after ≡ some der
      → lib.parse_cert der ≡ some leaf
      → leaf.public_key ≡ lib.public_key k
  pub belongs :
      (k : Key) (cert pem der : Text) (leaf : Leaf)
      → lib.key_pair cert pem ≡ some der
      → parse_key lib pem ≡ some k
      → lib.parse_cert der ≡ some leaf
      → leaf.public_key ≡ lib.public_key k

-- The key file stays as it is, and a certificate that is returned has the pin of the key.
pub record Keeps {Key : Type 0} (lib : Library Key) (k : Key) (d : Folder) (r : Loaded Key)
    : Type 0 where
  pub key : lookup key_file r.0 ≡ lookup key_file d
  pub pin :
      (c : Certificate Key)
      → r.1 ≡ ok c
      → fingerprint_of lib c ≡ some (lib.sha256 (lib.public_key k))

module _ {Key : Type 0} (lib : Library Key) (laws : Laws lib) (o : Outside Key) where
  -- A failure that leaves the folder as it is.
  failed-Keeps : (k : Key) (d : Folder) (e : TlsError) → Keeps lib k d (d, err e)
  failed-Keeps k d e = record { key = refl; pin = λ c h. absurd (err≢ok e c h) }

  pin_of :
      (k : Key) (der : Text) (leaf : Leaf)
      → lib.parse_cert der ≡ some leaf
      → leaf.public_key ≡ lib.public_key k
      → fingerprint_of_der lib der ≡ some (lib.sha256 (lib.public_key k))
  unfolding fingerprint_of_der hashed
  pin_of k der leaf p q = rw (p, q) refl

  certificate-pin :
      (k : Key) (der : Text) (x : Option Leaf) (c : Certificate Key)
      → lib.parse_cert der ≡ x
      → ((leaf : Leaf) → lib.parse_cert der ≡ some leaf → leaf.public_key ≡ lib.public_key k)
      → certificate der k parse_new_failed x ≡ ok c
      → fingerprint_of lib c ≡ some (lib.sha256 (lib.public_key k))
  unfolding certificate fingerprint_of
  certificate-pin k der none c p q h = absurd (err≢ok parse_new_failed c h)
  certificate-pin k der (some leaf) c p q h =
      subst (λ x. fingerprint_of_der lib x.der ≡ some (lib.sha256 (lib.public_key k)))
        (ok-inv _ c h) (pin_of k der leaf p (q leaf p))

  stored_cert-Keeps :
      (k : Key) (der : Text) (d : Folder) (r : Folder × Option Text)
      → lookup key_file r.0 ≡ lookup key_file d
      → ((leaf : Leaf) → lib.parse_cert der ≡ some leaf → leaf.public_key ≡ lib.public_key k)
      → Keeps lib k d (stored_cert lib k der r)
  unfolding stored_cert
  stored_cert-Keeps k der d (d', some e) same q = record {
    key = same;
    pin = λ c h. absurd (err≢ok (write_failed e) c h);
  }
  stored_cert-Keeps k der d (d', none) same q = record {
    key = same;
    pin = λ c. certificate-pin k der _ c refl q;
  }

  cert-other :
      (t : Text) (d : Folder)
      → lookup key_file (write_file o.os_cert cert_file t d).0 ≡ lookup key_file d
  unfolding temp_prefix
  cert-other t d =
      write_file_other o.os_cert cert_file t key_file d (ne_of_== cert_file key_file refl)
        (ne_of_== (temp_name o.os_cert cert_file) key_file refl)

  store_cert-Keeps :
      (k : Key) (d : Folder) (x : Option Text)
      → lib.create_cert k o.now (o.now + validity) ≡ x
      → Keeps lib k d (store_cert lib o k d x)
  unfolding store_cert
  store_cert-Keeps k d none e = failed-Keeps k d _
  store_cert-Keeps k d (some der) e =
      stored_cert-Keeps k der d _ (cert-other (lib.encode_pem cert_type der) d)
        (λ leaf p. laws.created k o.now (o.now + validity) der leaf e p)

  pub issue-Keeps : (k : Key) (d : Folder) → Keeps lib k d (issue lib o k d)
  unfolding issue
  issue-Keeps k d = store_cert-Keeps k d _ refl

  use_or_renew-Keeps :
      (k : Key) (der : Text) (d : Folder) (x : Option Leaf)
      → lib.parse_cert der ≡ x
      → ((leaf : Leaf) → lib.parse_cert der ≡ some leaf → leaf.public_key ≡ lib.public_key k)
      → Keeps lib k d (use_or_renew lib o k der d x)
  unfolding use_or_renew fingerprint_of
  use_or_renew-Keeps k der d none p q = failed-Keeps k d _
  use_or_renew-Keeps k der d (some leaf) p q =
      split_if (Keeps lib k d) (ltb leaf.not_after (o.now + renew_before)) _ _
        (λ _. issue-Keeps k d)
        (λ _. record {
          key = refl;
          pin = λ c h.
              subst (λ x. fingerprint_of_der lib x.der ≡ some (lib.sha256 (lib.public_key k)))
                (ok-inv _ c h) (pin_of k der leaf p (q leaf p));
        })

  paired_cert-Keeps :
      (k : Key) (cert pem : Text) (d : Folder) (x : Option Text)
      → lib.key_pair cert pem ≡ x
      → parse_key lib pem ≡ some k
      → Keeps lib k d (paired_cert lib o k d x)
  unfolding paired_cert
  paired_cert-Keeps k cert pem d none e p = failed-Keeps k d _
  paired_cert-Keeps k cert pem d (some der) e p =
      use_or_renew-Keeps k der d (lib.parse_cert der) refl
        (λ leaf q. laws.belongs k cert pem der leaf e p q)

  with_key-Keeps :
      (k : Key) (pem : Text) (cert : Read) (d : Folder)
      → parse_key lib pem ≡ some k
      → Keeps lib k d (with_key lib o pem cert d (some k))
  unfolding with_key
  with_key-Keeps k pem missing d p = issue-Keeps k d
  with_key-Keeps k pem unreadable d p = failed-Keeps k d _
  with_key-Keeps k pem (contents c) d p = paired_cert-Keeps k c pem d (lib.key_pair c pem) refl p

  -- A start with a key that is there.
  pub load_or_create-Keeps :
      (k : Key) (pem : Text) (d : Folder)
      → lookup key_file d ≡ some pem
      → parse_key lib pem ≡ some k
      → Keeps lib k d (load_or_create lib o d)
  unfolding load_or_create read_file load_from
  load_or_create-Keeps k pem d l p =
      let cert = read_file o.cert_fault cert_file d in
      split_if (λ r. Keeps lib k d (load_from lib o d r cert)) o.key_fault _ _
        (λ _. failed-Keeps k d _) (λ _. rw (l, load_from, p) (with_key-Keeps k pem cert d p))

  -- After a start that succeeds, the key file has a key that is read back, and the certificate has
  -- its pin.
  pub Settled : Loaded Key → Certificate Key → Type 0
  Settled r c =
      (k : Key) × (pem : Text) × (lookup key_file r.0 ≡ some pem)
      × (parse_key lib pem ≡ some k)
      × (fingerprint_of lib c ≡ some (lib.sha256 (lib.public_key k)))

  kept-Settled :
      (k : Key) (pem : Text) (d : Folder) (r : Loaded Key) (c : Certificate Key)
      → lookup key_file d ≡ some pem
      → parse_key lib pem ≡ some k
      → Keeps lib k d r
      → r.1 ≡ ok c
      → Settled r c
  unfolding Settled
  kept-Settled k pem d r c l p keeps h = (k, pem, keeps.key ∙ l, p, keeps.pin c h)

  stored_key-Settled :
      (k : Key) (der : Text) (r : Folder × Option Text) (c : Certificate Key)
      → parse_key lib (lib.encode_pem key_type der) ≡ some k
      → (r.1 ≡ none → lookup key_file r.0 ≡ some (lib.encode_pem key_type der))
      → (stored_key lib o k r).1 ≡ ok c
      → Settled (stored_key lib o k r) c
  unfolding stored_key
  stored_key-Settled k der (d, some e) c p l h = absurd (err≢ok _ c h)
  stored_key-Settled k der (d, none) c p l h =
      kept-Settled k (lib.encode_pem key_type der) d (issue lib o k d) c (l refl) p
        (issue-Keeps k d) h

  parse_key-encoded :
      (k : Key) (der : Text)
      → lib.marshal_key k ≡ some der
      → parse_key lib (lib.encode_pem key_type der) ≡ some k
  unfolding parse_key of_type
  parse_key-encoded k der e = rw (laws.decoded key_type der, laws.marshalled k der e) refl

  store_key-Settled :
      (k : Key) (d : Folder) (x : Option Text) (c : Certificate Key)
      → lib.marshal_key k ≡ x
      → (store_key lib o k d x).1 ≡ ok c
      → Settled (store_key lib o k d x) c
  unfolding store_key
  store_key-Settled k d none c e h = absurd (err≢ok _ c h)
  store_key-Settled k d (some der) c e h =
      stored_key-Settled k der _ c (parse_key-encoded k der e)
        (write_file-ok o.os_key key_file (lib.encode_pem key_type der) d) h

  create-Settled :
      (d : Folder) (x : Option Key) (c : Certificate Key)
      → (create lib o d x).1 ≡ ok c
      → Settled (create lib o d x) c
  unfolding create
  create-Settled d none c h = absurd (err≢ok _ c h)
  create-Settled d (some k) c h = store_key-Settled k d (lib.marshal_key k) c refl h

  with_key-Settled :
      (pem : Text) (cert : Read) (d : Folder) (x : Option Key) (c : Certificate Key)
      → lookup key_file d ≡ some pem
      → parse_key lib pem ≡ x
      → (with_key lib o pem cert d x).1 ≡ ok c
      → Settled (with_key lib o pem cert d x) c
  unfolding with_key
  with_key-Settled pem missing d none c l p h = absurd (err≢ok _ c h)
  with_key-Settled pem unreadable d none c l p h = absurd (err≢ok _ c h)
  with_key-Settled pem (contents t) d none c l p h = absurd (err≢ok _ c h)
  with_key-Settled pem cert d (some k) c l p h =
      kept-Settled k pem d _ c l p (with_key-Keeps k pem cert d p) h

  load_from-Settled :
      (d : Folder) (key cert : Read) (c : Certificate Key)
      → ((pem : Text) → key ≡ contents pem → lookup key_file d ≡ some pem)
      → (load_from lib o d key cert).1 ≡ ok c
      → Settled (load_from lib o d key cert) c
  unfolding load_from
  load_from-Settled d missing missing c l h = create-Settled d o.generated c h
  load_from-Settled d missing unreadable c l h = absurd (err≢ok _ c h)
  load_from-Settled d missing (contents t) c l h = absurd (err≢ok _ c h)
  load_from-Settled d unreadable cert c l h = absurd (err≢ok _ c h)
  load_from-Settled d (contents pem) cert c l h =
      with_key-Settled pem cert d (parse_key lib pem) c (l pem refl) refl h

  missing-apart : (t : Text) → missing ≢ contents t
  missing-apart t h = ground (h, arith)

  contents-inv : (s t : Text) → contents s ≡ contents t → s ≡ t
  contents-inv s t h = ground (h, arith)

  read_file-contents :
      (fault : Bool) (name pem : Text) (d : Folder)
      → read_file fault name d ≡ contents pem
      → lookup name d ≡ some pem
  unfolding read_file
  read_file-contents true name pem d h = absurd (ground (h, arith))
  read_file-contents false name pem d h = elim (Option-cases (lookup name d)) [
    | inl e ↦ absurd (missing-apart pem (rw e at h))
    | inr (t, e) ↦ e ∙ ap some (contents-inv t pem (rw e at h))
  ]

  pub load_or_create-Settled :
      (d : Folder) (c : Certificate Key)
      → (load_or_create lib o d).1 ≡ ok c
      → Settled (load_or_create lib o d) c
  unfolding load_or_create
  load_or_create-Settled d c h =
      load_from-Settled d _ _ c (λ pem. read_file-contents o.key_fault key_file pem d) h

-- After a start that succeeds, a start that succeeds later, on a folder in which the key file is as that
-- start left it, has a certificate with the same pin, whatever has become of the certificate's file:
-- it may be kept, lost or replaced, and the certificate may be renewed. The libraries keep their laws.
pub fingerprint_kept :
    {Key : Type 0} (lib : Library Key) (laws : Laws lib) (o o' : Outside Key) (d d' : Folder)
    (c c' : Certificate Key)
    → (load_or_create lib o d).1 ≡ ok c
    → lookup key_file d' ≡ lookup key_file (load_or_create lib o d).0
    → (load_or_create lib o' d').1 ≡ ok c'
    → fingerprint_of lib c' ≡ fingerprint_of lib c
unfolding Settled
fingerprint_kept lib laws o o' d d' c c' h same h' =
    let (k, pem, l, p, pin) = load_or_create-Settled lib laws o d c h in
    (load_or_create-Keeps lib laws o' k pem d' (same ∙ l) p).pin c' h' ∙ sym pin

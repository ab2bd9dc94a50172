-- ===== src/Tlsid/Tests.antt =====
-- Two starts of an agent, with a stand-in for the certificates.
use docker_mobile.Base.{
  take-front, drop-front, ℕ, ◌+◌, ◌≡◌, refl, sym, ap, ◌∙◌, inl, inr, false, Option, none, some, [],
  ◌∷◌, ◌++◌, if◌then◌else◌, Bool-cases, Text, codes, length, take, drop, ◌==◌, nat_eq, text_eq,
  ==_iff, lookup, insert, delete, ok, none≢some, some-inv,
}
use docker_mobile.State.Dir.{Folder, no_faults, write_file, temp_prefix}
use docker_mobile.Tlsid.{
  key_file, cert_file, of_type, of_type, key_type, Leaf, Library, Certificate, read_file, parse_key,
  Outside, store_cert, issue, create, use_or_renew, with_key, load_from, load_or_create,
  fingerprint_of, validity,
}
use docker_mobile.Tlsid.Pinned
use docker_mobile.Tlsid.Pinned.{Laws}

-- A key is a number; a certificate is the end of its validity and the key.
leaf_of : Text → Option Leaf
leaf_of (until ∷ k ∷ []) = some (record { not_after = until; public_key = k ∷ [] })
leaf_of t = none

first : Text → Option ℕ
first [] = none
first (k ∷ s) = some k

-- A block is the length of its type, the type and the bytes.
decode : Text → Option (Text × Text)
decode [] = none
decode (n ∷ t) = some (take n t, drop n t)

-- A certificate belongs to a key if it names it.
pair_of : Option Leaf → Text → Option ℕ → Option Text
pair_of (some leaf) der (some k) = if leaf.public_key == k ∷ [] then some der else none
pair_of leaf der k = none

bytes_of : Option (Text × Text) → Text
bytes_of none = []
bytes_of (some (kind, bytes)) = bytes

key_of : Option (Text × Text) → Option ℕ
unfolding first
key_of none = none
key_of (some (kind, bytes)) = if kind == key_type then first bytes else none

abbrev lib : Library ℕ
lib = record {
  marshal_key = λ k. some (k ∷ []);
  parse_ec_key = first;
  encode_pem = λ kind bytes. length kind ∷ (kind ++ bytes);
  decode_pem = decode;
  create_cert = λ k from until. some (until ∷ k ∷ []);
  parse_cert = leaf_of;
  key_pair =
      λ c p. pair_of (leaf_of (bytes_of (decode c))) (bytes_of (decode c)) (key_of (decode p));
  public_key = λ k. k ∷ [];
  sha256 = λ t. t;
}

key_of-parse : (p : Option (Text × Text)) → of_type key_type first p ≡ key_of p
unfolding of_type key_of
key_of-parse none = refl
key_of-parse (some (kind, bytes)) = refl

belongs-pair :
    (x : Option Leaf) (bytes der : Text) (y : Option ℕ) (k : ℕ) (leaf : Leaf)
    → leaf_of bytes ≡ x
    → pair_of x bytes y ≡ some der
    → y ≡ some k
    → leaf_of der ≡ some leaf
    → leaf.public_key ≡ k ∷ []
unfolding pair_of
belongs-pair none bytes der y k leaf e h q l = absurd (none≢some der h)
belongs-pair (some f) bytes der none k leaf e h q l = absurd (none≢some k q)
belongs-pair (some f) bytes der (some j) k leaf e h q l =
    elim (Bool-cases (f.public_key == j ∷ [])) [
      | inr y ↦ absurd (none≢some der (rw y at h))
      | inl y ↦
          let same : bytes ≡ der = some-inv bytes der (rw y at h) in
          let leaves : f ≡ leaf = some-inv f leaf (sym e ∙ ap leaf_of same ∙ l) in
          ap (λ (z : Leaf). z.public_key) (sym leaves)
          ∙ (==_iff f.public_key (j ∷ [])).0 y
          ∙ ap (λ n. n ∷ []) (some-inv j k q)
    ]

laws : Laws lib
unfolding first decode leaf_of parse_key
laws = record {
  marshalled = λ k der h. ap first (sym (some-inv (k ∷ []) der h));
  decoded = λ kind bytes. rw (take-front kind bytes, drop-front kind bytes) refl;
  created = λ k before after der leaf h l.
      ap (λ (z : Leaf). z.public_key)
        (sym (some-inv _ leaf (ap leaf_of (some-inv (after ∷ k ∷ []) der h) ∙ l)));
  belongs = λ k cert pem der leaf h p l.
      belongs-pair _ (bytes_of (decode cert)) der (key_of (decode pem)) k leaf refl h
        (sym (key_of-parse (decode pem)) ∙ p) l;
}

abbrev first_start : Outside ℕ
first_start = record {
  now = 0;
  generated = some 7;
  key_fault = false;
  cert_fault = false;
  os_key = no_faults (codes "1");
  os_cert = no_faults (codes "2");
}

-- Ten years later the certificate is renewed, and no new key is taken.
abbrev later : Outside ℕ
later = record first_start { now = validity; generated = some 8 }

abbrev old : Certificate ℕ
old = record {
  der = validity ∷ 7 ∷ [];
  key = 7;
  leaf = record { not_after = validity; public_key = 7 ∷ [] };
}

abbrev renewed : Certificate ℕ
renewed = record {
  der = (validity + validity) ∷ 7 ∷ [];
  key = 7;
  leaf = record { not_after = validity + validity; public_key = 7 ∷ [] };
}

runs : Unit {0}
unfolding temp_prefix load_or_create load_from read_file create store_cert issue with_key
    use_or_renew parse_key first decode leaf_of pair_of key_of bytes_of write_file lookup insert
    delete
runs = tt

starts : (load_or_create lib first_start []).1 ≡ ok old
unfolding runs
starts = refl

renews : (load_or_create lib later (load_or_create lib first_start []).0).1 ≡ ok renewed
unfolding runs
renews = refl

-- The certificate is lost before the third start.
abbrev lost : Folder
lost = delete cert_file (load_or_create lib first_start []).0

same_key : lookup key_file lost ≡ lookup key_file (load_or_create lib first_start []).0
unfolding runs
same_key = refl

made_again : (load_or_create lib later lost).1 ≡ ok renewed
unfolding runs
made_again = refl

fingerprint_kept_example : fingerprint_of lib renewed ≡ fingerprint_of lib old
fingerprint_kept_example =
    Pinned.fingerprint_kept lib laws first_start later [] lost old renewed starts same_key
      made_again

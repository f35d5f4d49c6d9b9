-- ===== src/Update/Verify/Signed.antt =====
-- What a verified manifest is backed by.
use iron_link.Prelude.{
  String, ◌≡◌, refl, true, not, ◌||◌, ◌==◌, eq_iff, some, List, arith, eqb, find, ok, reject_if,
  of_option, of_option-ok, >>=-eq-ok, >>-ok, reject_if-ok, ok-injective, Result-cases, inl, inr,
}
use iron_link.Update.Manifest.{Manifest, malformed_json, check_manifest}
use iron_link.Update.Verify.{
  Libs, Signature, TrustedKey, Verified, malformed_signature, wrong_algorithm, unknown_key,
  bad_signature, comment_mismatch, manifest, parse_trusted_comment, parse_manifest, cross_check,
  verify_manifest,
}

module _ (libs : Libs) where
  -- A trusted key signed these bytes with the prehashed algorithm; they decode to the manifest, which
  -- is well-formed, and the signed comment repeats its version and its number.
  pub record IsSigned (keys : List (TrustedKey libs)) (json sig : String) (v : Verified libs)
      : Type 0 where
    pub key : TrustedKey libs
    pub signature : Signature
    pub decoded : libs.decode_signature sig ≡ some signature
    pub prehashed : eqb signature.algorithm libs.hash_ed_dsa ≡ true
    pub trusted : find (λ k. eqb (libs.id_of k.key) signature.key_id) keys ≡ some key
    pub signed : libs.verify key.key json sig ≡ true
    pub parsed : libs.decode_manifest json ≡ some v.manifest
    pub well_formed : check_manifest libs.valid libs.canonical v.manifest ≡ ok tt
    pub comment :
        parse_trusted_comment signature.trusted_comment ≡ ok (v.manifest.version, v.manifest.seq)
    pub name : v.key_name ≡ key.name
    pub id : v.key_id ≡ libs.id_of key.key

  parse_manifest-ok :
      (json : String) (m : Manifest)
      → parse_manifest libs json ≡ ok m
      → (libs.decode_manifest json ≡ some m) × (check_manifest libs.valid libs.canonical m ≡ ok tt)
  unfolding parse_manifest
  parse_manifest-ok json m h =
      let (m1, d, rest) =
        >>=-eq-ok (of_option (manifest malformed_json) (libs.decode_manifest json)) _ h in
      elim (Result-cases (check_manifest libs.valid libs.canonical m1)) [
        | inl (_, e) ↦
            ground (arith, of_option-ok (manifest malformed_json) (libs.decode_manifest json) d)
        | inr (x, e) ↦ absurd (ground arith)
      ]

  cross_check-ok :
      (k : TrustedKey libs) (sig : Signature) (m : Manifest) (v : Verified libs)
      → cross_check libs k sig m ≡ ok v
      → (parse_trusted_comment sig.trusted_comment ≡ ok (m.version, m.seq))
        × (record { manifest = m; key_name = k.name; key_id = libs.id_of k.key } ≡ v)
  unfolding cross_check
  cross_check-ok k sig m v h =
      let (claimed, c, rest) = >>=-eq-ok (parse_trusted_comment sig.trusted_comment) _ h in
      let (same, out) =
        (>>-ok
            (reject_if (not (claimed.0 == m.version) || not (eqb claimed.1 m.seq)) comment_mismatch)
            _ v).0
          rest in
      let agree =
        (reject_if-ok (not (claimed.0 == m.version) || not (eqb claimed.1 m.seq))
            comment_mismatch).0
          same in
      let version : claimed.0 ≡ m.version = ground (arith, eq_iff claimed.0 m.version) in
      let seq : claimed.1 ≡ m.seq = ground arith in (rw (← version, ← seq) c, ok-injective out)

  -- A manifest that verifies was signed, as it stands, by a trusted key.
  pub verify_manifest-IsSigned :
      (keys : List (TrustedKey libs)) (json sig : String) (v : Verified libs)
      → verify_manifest libs keys json sig ≡ ok v
      → IsSigned keys json sig v
  unfolding verify_manifest
  verify_manifest-IsSigned keys json sig v h =
      let (s, decoded, h1) =
        >>=-eq-ok (of_option malformed_signature (libs.decode_signature sig)) _ h in
      let (algorithm, h2) =
        (>>-ok (reject_if (not (eqb s.algorithm libs.hash_ed_dsa)) wrong_algorithm) _ v).0 h1 in
      let (k, trusted, h3) =
        >>=-eq-ok (of_option unknown_key (find (λ k. eqb (libs.id_of k.key) s.key_id) keys)) _ h2 in
      let (signed, h4) =
        (>>-ok (reject_if (not (libs.verify k.key json sig)) bad_signature) _ v).0 h3 in
      let (m, parsed, h5) = >>=-eq-ok (parse_manifest libs json) _ h4 in
      let (comment, same) = cross_check-ok k s m v h5 in
      let (document, well_formed) = parse_manifest-ok json m parsed in
      rw (← same) (record {
        key = k;
        signature = s;
        decoded = of_option-ok malformed_signature (libs.decode_signature sig) decoded;
        prehashed = ground (
          arith,
          (reject_if-ok (not (eqb s.algorithm libs.hash_ed_dsa)) wrong_algorithm).0 algorithm,
        );
        trusted =
            of_option-ok unknown_key (find (λ k. eqb (libs.id_of k.key) s.key_id) keys) trusted;
        signed =
            ground
              (arith, (reject_if-ok (not (libs.verify k.key json sig)) bad_signature).0 signed);
        parsed = document;
        well_formed = well_formed;
        comment = comment;
        name = refl;
        id = refl;
      })

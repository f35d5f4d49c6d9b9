-- ===== src/Update/SeqFile/Mirrors.antt =====
-- The file as the `SeqStore` of the update check.
use iron_link.Prelude.{
  ℕ, String, true, false, ◌≡◌, refl, sym, ap, subst, ◌∙◌, ◌==◌, ◌||◌, ◌++◌, eqb, any-append, Option,
  none, some, List, [], ◌∷◌, contains, Result, ok, err, ok-injective, >>=-eq-ok, Result-cases,
  Bool-cases, eq_iff, inl, inr, ◌⊎◌, arith,
}
use iron_link.Store.Files.{read}
use iron_link.Update.Verify.{Libs}
use iron_link.Update.Check as Check
use iron_link.Update.Check.{SeqState, contains_id}
use iron_link.Update.SeqFile.{
  SeqDoc, SeqLibs, SeqError, Faults, call, as_error, bad_id, unencodable, load, write_calls, save,
  update, last_seen_seq, set_last_seen_seq, parse_ids, revoked_key_ids, add_text, revoke_key_id,
  set_last_attempt,
}

-- What the store relies on: a document that is encoded is decoded to itself, and so is the text of an
-- id.
pub record IsSeqLibs {Raw : Type 0} (libs : SeqLibs Raw) : Type 0 where
  pub doc : (d : SeqDoc) (raw : Raw) → libs.encode d ≡ ok raw → libs.decode raw ≡ ok d
  pub id : (n : ℕ) → libs.parse_uint (libs.format_uint n) ≡ ok n

-- No call fails.
abbrev pub no_faults : Faults
no_faults c = none

-- The file holds the state: its floor, and the same revoked ids, in any order and number.
abbrev pub Mirrors : {Raw : Type 0} → SeqLibs Raw → Option Raw → SeqState → Type 0
Mirrors libs file st =
    (last_seen_seq libs no_faults file ≡ ok st.last_seen_seq)
    × ((ids : List ℕ) × (revoked_key_ids libs no_faults file ≡ ok ids)
        × ((k : ℕ) → contains_id ids k ≡ contains_id st.revoked_key_ids k))

-- The calls that write.
pub data Setter : Type 0 where
  floor revoke attempt : ℕ → Setter

unfoldable pub perform :
    {Raw : Type 0}
    → SeqLibs Raw
    → Faults
    → Setter
    → Option Raw
    → Option Raw × Result SeqError (Unit {0})
perform libs faults (floor seq) file = set_last_seen_seq libs faults seq file
perform libs faults (revoke id) file = revoke_key_id libs faults id file
perform libs faults (attempt t) file = set_last_attempt libs faults t file

-- What the update check takes of them, where the store does not fail.
unfoldable pub step : Libs → Setter → SeqState → SeqState
step libs (floor seq) st = record st { last_seen_seq = seq }
step libs (revoke id) st = (Check.revoke_key_id libs (λ op. false) id st).0
step libs (attempt t) st = st

module _ {Raw : Type 0} (libs : SeqLibs Raw) (law : IsSeqLibs libs) where
  load-eq-ok :
      (faults : Faults) (file : Option Raw) (doc d : SeqDoc)
      → load libs no_faults file ≡ ok doc
      → load libs faults file ≡ ok d
      → d ≡ doc
  unfolding load
  load-eq-ok faults file doc d h k =
      let (u, quiet_read, rest) = >>=-eq-ok (call faults read) _ {out = d} k in
      ok-injective (sym rest ∙ h)

  -- An update lands whole, or the file is as it was.
  update-cases :
      (faults : Faults) (mutate : SeqDoc → SeqDoc) (file : Option Raw) (doc : SeqDoc)
      → load libs no_faults file ≡ ok doc
      → ((raw : Raw) × (update libs faults mutate file ≡ (some raw, ok tt))
          × (load libs no_faults (some raw) ≡ ok (mutate doc)))
        ⊎ ((e : SeqError) × (update libs faults mutate file ≡ (file, err e)))
  unfolding update save load
  update-cases faults mutate file doc h = elim (Result-cases (load libs faults file)) [
    | inr (bad, e) ↦ inr (bad, rw (e, update) refl)
    | inl (d, e) ↦
        let same = load-eq-ok faults file doc d h e in
        elim (Result-cases (libs.encode (mutate d))) [
          | inr (bad, f) ↦ inr (unencodable bad, rw (e, update, f, save) refl)
          | inl (raw, f) ↦ elim (Result-cases (write_calls libs faults)) [
            | inr (bad, g) ↦ inr (bad, rw (e, update, f, save, g) refl)
            | inl (u, g) ↦
                inl (raw, rw (e, update, f, save, g) refl, rw (law.doc (mutate d) raw f, same) refl)
          ]
        ]
  ]

  parse_ids-append_one :
      (ts : List String) (t : String) (ids : List ℕ) (id : ℕ)
      → parse_ids libs no_faults ts ≡ ok ids
      → libs.parse_uint t ≡ ok id
      → parse_ids libs no_faults (ts ++ t ∷ []) ≡ ok (ids ++ id ∷ [])
  unfolding parse_ids
  parse_ids-append_one [] t ids id h k = rw (k, ← ok-injective h) refl
  parse_ids-append_one (s ∷ ts) t ids id h k =
      let (first, one, rest) = >>=-eq-ok (as_error bad_id (libs.parse_uint s)) _ {out = ids} h in
      let (others, more, last) =
        >>=-eq-ok (parse_ids libs no_faults ts) (λ x. ok (first ∷ x)) {out = ids} rest in
      rw (one, parse_ids-append_one ts t others id more k, ← ok-injective last) refl

  -- A text that is there stands for an id that is there.
  contains_id-parse_ids :
      (ts : List String) (t : String) (ids : List ℕ) (id : ℕ)
      → parse_ids libs no_faults ts ≡ ok ids
      → libs.parse_uint t ≡ ok id
      → contains ts t ≡ true
      → contains_id ids id ≡ true
  unfolding parse_ids
  contains_id-parse_ids [] t ids id h k c = cc
  contains_id-parse_ids (s ∷ ts) t ids id h k c =
      let (first, one, rest) = >>=-eq-ok (as_error bad_id (libs.parse_uint s)) _ {out = ids} h in
      let (others, more, last) =
        >>=-eq-ok (parse_ids libs no_faults ts) (λ x. ok (first ∷ x)) {out = ids} rest in
      rw (← ok-injective last) (elim (Bool-cases (s == t)) [
        | inl same ↦
            let equal = (eq_iff s t).0 same in
            let first_id : first ≡ id = ground (arith, equal) in ground (arith, first_id)
        | inr apart ↦
            let later = contains_id-parse_ids ts t others id more k (ground arith) in ground arith
      ])

  contains_id-eqb :
      (ids : List ℕ) (id k : ℕ)
      → contains_id ids id ≡ true
      → contains_id ids k ≡ (contains_id ids k || eqb id k)
  contains_id-eqb ids id k h = elim (Bool-cases (eqb id k)) [
    | inr apart ↦ ground arith
    | inl same ↦
        let equal : id ≡ k = ground arith in
        let there : contains_id ids k ≡ true = subst (λ n. contains_id ids n ≡ true) equal h in
        ground arith
  ]

  add_text-parse_ids :
      (ts : List String) (ids : List ℕ) (id : ℕ)
      → parse_ids libs no_faults ts ≡ ok ids
      → ((out : List ℕ) × (parse_ids libs no_faults (add_text (libs.format_uint id) ts) ≡ ok out)
          × ((k : ℕ) → contains_id out k ≡ (contains_id ids k || eqb id k)))
  add_text-parse_ids ts ids id h = elim (Bool-cases (contains ts (libs.format_uint id))) [
    | inl old ↦ (
      ids,
      rw old h,
      λ k.
          contains_id-eqb ids id k
            (contains_id-parse_ids ts (libs.format_uint id) ids id h (law.id id) old),
    )
    | inr new ↦ (
      ids ++ id ∷ [],
      rw new (parse_ids-append_one ts (libs.format_uint id) ids id h (law.id id)),
      λ k. any-append (λ n. eqb n k) ids (id ∷ []) ∙ ground arith,
    )
  ]

  step-contains_id :
      (check : Libs) (id k : ℕ) (st : SeqState)
      → contains_id (step check (revoke id) st).revoked_key_ids k
        ≡ (contains_id st.revoked_key_ids k || eqb id k)
  unfolding step Check.revoke_key_id
  step-contains_id check id k st = elim (Bool-cases (contains_id st.revoked_key_ids id)) [
    | inl old ↦ rw (step, Check.revoke_key_id, old) (contains_id-eqb st.revoked_key_ids id k old)
    | inr new ↦
        rw (step, Check.revoke_key_id, new)
          (any-append (λ n. eqb n k) st.revoked_key_ids (id ∷ []) ∙ ground arith)
  ]

  revoked_key_ids-load :
      (file : Option Raw) (doc : SeqDoc)
      → load libs no_faults file ≡ ok doc
      → revoked_key_ids libs no_faults file ≡ parse_ids libs no_faults doc.revoked_key_ids
  unfolding revoked_key_ids
  revoked_key_ids-load file doc h = rw (h, revoked_key_ids) refl

  last_seen_seq-load :
      (file : Option Raw) (doc : SeqDoc)
      → load libs no_faults file ≡ ok doc
      → last_seen_seq libs no_faults file ≡ ok doc.last_seen_seq
  unfolding last_seen_seq
  last_seen_seq-load file doc h = rw (h, last_seen_seq) refl

  -- The document of a file that holds a state.
  Mirrors-load :
      (file : Option Raw) (st : SeqState)
      → Mirrors libs file st
      → ((doc : SeqDoc) × (load libs no_faults file ≡ ok doc)
          × (doc.last_seen_seq ≡ st.last_seen_seq)
          × ((ids : List ℕ) × (parse_ids libs no_faults doc.revoked_key_ids ≡ ok ids)
              × ((k : ℕ) → contains_id ids k ≡ contains_id st.revoked_key_ids k)))
  unfolding last_seen_seq
  Mirrors-load file st (seq, (ids, parsed, same)) =
      let (doc, loads, last) =
        >>=-eq-ok (load libs no_faults file) (λ d. ok d.last_seen_seq) {out = st.last_seen_seq}
          seq in
      (
        doc,
        loads,
        ok-injective last,
        (ids, sym (revoked_key_ids-load file doc loads) ∙ parsed, same),
      )

  -- An update of the document, and the state that its fields are then.
  update-Mirrors :
      (faults : Faults) (mutate : SeqDoc → SeqDoc) (file : Option Raw) (doc : SeqDoc)
      (st : SeqState) (ids : List ℕ)
      → load libs no_faults file ≡ ok doc
      → (mutate doc).last_seen_seq ≡ st.last_seen_seq
      → parse_ids libs no_faults (mutate doc).revoked_key_ids ≡ ok ids
      → ((k : ℕ) → contains_id ids k ≡ contains_id st.revoked_key_ids k)
      → ((raw : Raw) × (update libs faults mutate file ≡ (some raw, ok tt))
          × Mirrors libs (some raw) st)
        ⊎ ((e : SeqError) × (update libs faults mutate file ≡ (file, err e)))
  update-Mirrors faults mutate file doc st ids h seq parsed same =
      elim (update-cases faults mutate file doc h) [
        | inr (e, w) ↦ inr (e, w)
        | inl (raw, w, loads) ↦ inl (
          raw,
          w,
          (
            last_seen_seq-load (some raw) (mutate doc) loads ∙ ap (λ n. ok n) seq,
            (ids, revoked_key_ids-load (some raw) (mutate doc) loads ∙ parsed, same),
          ),
        )
      ]

  -- For a file that holds a state, each call that writes either fails and leaves the file as it was,
  -- or leaves a file that holds what the update check takes the call to make of the state: the floor
  -- is the new one, the id is revoked with those before, and an attempt changes neither.
  pub perform-Mirrors :
      (check : Libs) (faults : Faults) (s : Setter) (file : Option Raw) (st : SeqState)
      → Mirrors libs file st
      → ((raw : Raw) × (perform libs faults s file ≡ (some raw, ok tt))
          × Mirrors libs (some raw) (step check s st))
        ⊎ ((e : SeqError) × (perform libs faults s file ≡ (file, err e)))
  unfolding perform step set_last_seen_seq revoke_key_id set_last_attempt Check.revoke_key_id
  perform-Mirrors check faults (floor seq) file st m =
      let (doc, loads, at_floor, (ids, parsed, same)) = Mirrors-load file st m in
      update-Mirrors faults (λ d. record d { last_seen_seq = seq }) file doc
        (record st { last_seen_seq = seq }) ids loads refl parsed same
  perform-Mirrors check faults (attempt t) file st m =
      let (doc, loads, at_floor, (ids, parsed, same)) = Mirrors-load file st m in
      update-Mirrors faults (λ d. record d { last_attempt = libs.format_time t }) file doc st ids
        loads at_floor parsed same
  perform-Mirrors check faults (revoke id) file st m =
      let (doc, loads, at_floor, (ids, parsed, same)) = Mirrors-load file st m in
      let (out, reparsed, added) = add_text-parse_ids doc.revoked_key_ids ids id parsed in
      update-Mirrors faults
        (λ d. record d { revoked_key_ids = add_text (libs.format_uint id) d.revoked_key_ids }) file
        doc (step check (revoke id) st) out loads (at_floor ∙ ground arith) reparsed
        (λ k. added k ∙ ap (λ b. b || eqb id k) (same k) ∙ sym (step-contains_id check id k st))

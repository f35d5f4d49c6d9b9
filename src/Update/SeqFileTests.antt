-- ===== src/Update/SeqFileTests.antt =====
-- The trust state in a file whose bytes are the document, with ids counted out in strokes.
use iron_link.Prelude.{
  ℕ, zero, suc, String, ◌≡◌, refl, ap, ◌⊎◌, some, [], ◌∷◌, Option, ok, err, ok-injective,
}
use iron_link.Update.Check.{SeqState}
use iron_link.Update.SeqFile.{
  SeqDoc, SeqLibs, SeqError, load, last_seen_seq, revoked_key_ids, parse_ids,
}
use iron_link.Update.SeqFile.Mirrors.{
  IsSeqLibs, Mirrors, Setter, perform, step, no_faults, perform-Mirrors,
}
use iron_link.Update.Tests.{some_libs}

abbrev strokes : ℕ → String
strokes zero = ""
strokes (suc n) = String.◌∷◌ "|" (strokes n)

abbrev counted : String → ℕ
counted String.[] = 0
counted (String.◌∷◌ c s) = suc (counted s)

counted-strokes : (n : ℕ) → counted (strokes n) ≡ n
counted-strokes zero = refl
counted-strokes (suc n) = ap suc (counted-strokes n)

abbrev plain : SeqLibs SeqDoc
plain = record {
  encode = λ d. ok d;
  decode = λ d. ok d;
  format_uint = strokes;
  parse_uint = λ s. ok (counted s);
  format_time = strokes;
  parse_time = λ s. ok (counted s);
}

plain-IsSeqLibs : IsSeqLibs plain
plain-IsSeqLibs = record {
  doc = λ d raw h. rw (← ok-injective h) refl;
  id = λ n. ap (λ k. ok k) (counted-strokes n);
}

-- The floor is 7, and the key 2 is revoked.
abbrev a_file : Option SeqDoc
a_file = some (record { last_seen_seq = 7; last_attempt = ""; revoked_key_ids = "||" ∷ [] })

abbrev a_state : SeqState
a_state = record { last_seen_seq = 7; revoked_key_ids = 2 ∷ [] }

perform-Mirrors_example :
    ((raw : SeqDoc) × (perform plain no_faults (Setter.revoke 3) a_file ≡ (some raw, ok tt))
      × Mirrors plain (some raw) (step some_libs (Setter.revoke 3) a_state))
    ⊎ ((e : SeqError) × (perform plain no_faults (Setter.revoke 3) a_file ≡ (a_file, err e)))
unfolding last_seen_seq revoked_key_ids load parse_ids
perform-Mirrors_example =
    perform-Mirrors plain plain-IsSeqLibs some_libs no_faults (Setter.revoke 3) a_file a_state
      (refl, (2 ∷ [], refl, λ k. refl))

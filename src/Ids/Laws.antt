-- ===== src/Ids/Laws.antt =====
-- What a candidate's SHA is: one text for all spellings of it.
use solutions_studio.Base.{
  ℕ, ◌≡◌, refl, true, false, not, [], ◌∷◌, arith, every, length, length-map,
}
use solutions_studio.Base.Text.{
  Text, trim, is_space, is_blank, to_lower, lower_char, trim_id, to_lower-to_lower,
}
use solutions_studio.Base.Result.{ok}
use solutions_studio.Ids.{is_hex, is_candidate_sha, is_sha256, create_candidate_sha}

hex_no_space : (c : ℕ) → is_hex c ≡ true → is_space c ≡ false
unfolding is_hex is_space
hex_no_space c h = ground arith

is_hex-lower_char : (c : ℕ) → is_hex c ≡ true → is_hex (lower_char c) ≡ true
unfolding is_hex lower_char
is_hex-lower_char c h = ground arith

no_spaces : (t : Text) → every is_hex t ≡ true → every (λ c. not (is_space c)) t ≡ true
unfolding every
no_spaces [] h = refl
no_spaces (c ∷ t) h = ground (arith, hex_no_space c, no_spaces t)

every-to_lower : (t : Text) → every is_hex t ≡ true → every is_hex (to_lower t) ≡ true
unfolding every to_lower
every-to_lower [] h = refl
every-to_lower (c ∷ t) h = ground (arith, is_hex-lower_char c, every-to_lower t)

length-to_lower : (t : Text) → length (to_lower t) ≡ length t
unfolding to_lower
length-to_lower t = length-map lower_char t

pub is_candidate_sha-to_lower :
    (t : Text) → is_candidate_sha t ≡ true → is_candidate_sha (to_lower t) ≡ true
unfolding is_candidate_sha
is_candidate_sha-to_lower t h = ground (arith, length-to_lower t, every-to_lower t)

pub is_sha256-to_lower : (t : Text) → is_sha256 t ≡ true → is_sha256 (to_lower t) ≡ true
unfolding is_sha256
is_sha256-to_lower t h = ground (arith, length-to_lower t, every-to_lower t)

sha_trimmed : (t : Text) → is_candidate_sha t ≡ true → trim t ≡ t
unfolding is_candidate_sha
sha_trimmed t h = ground (arith, no_spaces t, trim_id t)

sha_not_empty : (t : Text) → is_candidate_sha t ≡ true → is_blank t ≡ false
sha_not_empty [] h = unfold is_candidate_sha in absurd (ground arith)
sha_not_empty (c ∷ t) h = ground (arith, sha_trimmed (c ∷ t) h)

create_candidate_sha_lem :
    (t : Text) → is_candidate_sha (trim t) ≡ true → create_candidate_sha t ≡ ok (to_lower (trim t))
unfolding create_candidate_sha
create_candidate_sha_lem t h = ground (arith, sha_trimmed (trim t) h, sha_not_empty (trim t) h)

created_parts :
    (t : Text) {sha : Text}
    → create_candidate_sha t ≡ ok sha
    → (is_candidate_sha (trim t) ≡ true) × (sha ≡ to_lower (trim t))
unfolding create_candidate_sha
created_parts t h = ground arith

-- A created SHA is in its canonical form: it is valid, in lower case, and creating one from it again
-- gives itself.
pub record IsCanonicalSha (sha : Text) : Type 0 where
  pub valid : is_candidate_sha sha ≡ true
  pub lower : to_lower sha ≡ sha
  pub stable : create_candidate_sha sha ≡ ok sha

pub create_candidate_sha-IsCanonicalSha :
    (value sha : Text) → create_candidate_sha value ≡ ok sha → IsCanonicalSha sha
create_candidate_sha-IsCanonicalSha value sha h =
    let (v, e) = created_parts value h in
    let valid = is_candidate_sha-to_lower (trim value) v in
    let trimmed = sha_trimmed (to_lower (trim value)) valid in
    record {
      valid = rw e valid;
      lower = rw e (to_lower-to_lower (trim value));
      stable =
          ground (
            arith,
            create_candidate_sha_lem (to_lower (trim value)),
            to_lower-to_lower (trim value),
          );
    }

-- A SHA-256 digest in lower case.
pub record IsDigest (t : Text) : Type 0 where
  pub sha : is_sha256 t ≡ true
  pub lower : to_lower t ≡ t

pub to_lower-IsDigest : (t : Text) → is_sha256 t ≡ true → IsDigest (to_lower t)
to_lower-IsDigest t h = record { sha = is_sha256-to_lower t h; lower = to_lower-to_lower t }

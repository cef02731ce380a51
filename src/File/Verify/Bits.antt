-- ===== src/File/Verify/Bits.antt =====
-- The byte that `verify_tfile` builds and `is_chunk_verified` reads: bit 7 - i is chunk i.
use grintorrent.Base.{
  ℕ, zero, suc, ◌≤◌, ◌<◌, ◌≡◌, ◌↔◌, refl, sym, ap, ◌∙◌, Bool, true, false, ◌&&◌, List, [], ◌∷◌,
  arith, get_or, ◌==◌, ==_iff, ltb, dec_lt, lt→ltb, ltb-eq-false,
}
use grintorrent.Base.Int.{pos}
use grintorrent.Tfile.{
  Digest, num_chunks, verified_file, zero_digest, same_digest, same_digest→eq, same_digest_refl,
}
use grintorrent.File.Verify.{match_loop, compare_hashes, is_chunk_verified}

all_below : ℕ → (ℕ → Bool) → Bool
all_below zero p = true
all_below (suc n) p = p n && all_below n p

all_below_sound : (n : ℕ) (p : ℕ → Bool) (i : ℕ) → all_below n p ≡ true → i < n → p i ≡ true
unfolding all_below
all_below_sound zero p i h lt = absurd (omega arith)
all_below_sound (suc n) p i h lt = ground (arith, all_below_sound n p i)

all_bool : (Bool → Bool) → Bool
all_bool p = p true && p false

all_bool_sound : (p : Bool → Bool) (b : Bool) → all_bool p ≡ true → p b ≡ true
unfolding all_bool
all_bool_sound p true h = ground arith
all_bool_sound p false h = ground arith

abbrev eqb : Bool → Bool → Bool
eqb true b = b
eqb false true = false
eqb false false = true

eqb→eq : (a b : Bool) → eqb a b ≡ true → a ≡ b
eqb→eq true true h = refl
eqb→eq true false h = cc
eqb→eq false true h = cc
eqb→eq false false h = refl

-- Eight tests, one for each chunk.
abbrev eight : (a b c d e f g h : Bool) → ℕ → Bool
eight a b c d e f g h i = get_or (a ∷ b ∷ c ∷ d ∷ e ∷ f ∷ g ∷ h ∷ []) i false

abbrev built : (ℕ → Bool) → ℕ
built same = match_loop same num_chunks 0 0

abbrev reads_back : ℕ → (ℕ → Bool) → Bool
reads_back i same = eqb (is_chunk_verified (built same) (pos i)) (same i)

abbrev all_eight : ((ℕ → Bool) → Bool) → Bool
all_eight p = all_bool λ a. all_bool λ b. all_bool λ c.
    all_bool λ d. all_bool λ e. all_bool λ f. all_bool λ g. all_bool λ h. p (eight a b c d e f g h)

table : all_below 8 (λ i. all_eight (reads_back i)) ≡ true
unfolding all_below all_bool match_loop is_chunk_verified
table = refl

abbrev sampled : (ℕ → Bool) → ℕ → Bool
sampled same = eight (same 0) (same 1) (same 2) (same 3) (same 4) (same 5) (same 6) (same 7)

all_eight_sound :
    (p : (ℕ → Bool) → Bool) (same : ℕ → Bool) → all_eight p ≡ true → p (sampled same) ≡ true
all_eight_sound p same h =
    all_bool_sound (λ x. p (eight (same 0) (same 1) (same 2) (same 3) (same 4) (same 5) (same 6) x))
      (same 7)
      (all_bool_sound _ (same 6) (
        all_bool_sound _ (same 5) (
          all_bool_sound _ (same 4) (
            all_bool_sound _ (same 3) (
              all_bool_sound _ (same 2)
                (all_bool_sound _ (same 1) (all_bool_sound _ (same 0) h)))))))

built-sampled : (same : ℕ → Bool) → built (sampled same) ≡ built same
unfolding match_loop
built-sampled same = refl

sampled_lem : (same : ℕ → Bool) (i : ℕ) → i < 8 → sampled same i ≡ same i
sampled_lem same zero h = refl
sampled_lem same (suc zero) h = refl
sampled_lem same (suc (suc zero)) h = refl
sampled_lem same (suc (suc (suc zero))) h = refl
sampled_lem same (suc (suc (suc (suc zero)))) h = refl
sampled_lem same (suc (suc (suc (suc (suc zero))))) h = refl
sampled_lem same (suc (suc (suc (suc (suc (suc zero)))))) h = refl
sampled_lem same (suc (suc (suc (suc (suc (suc (suc zero))))))) h = refl
sampled_lem same (suc (suc (suc (suc (suc (suc (suc (suc i)))))))) h = absurd (omega arith)

is_chunk_verified-built :
    (same : ℕ → Bool) (i : ℕ) → i < 8 → is_chunk_verified (built same) (pos i) ≡ same i
is_chunk_verified-built same i lt =
    let row = all_below_sound 8 (λ j. all_eight (reads_back j)) i table lt in
    let read =
      eqb→eq (is_chunk_verified (built (sampled same)) (pos i)) (sampled same i)
        (all_eight_sound (reads_back i) same row) in
    rw (built-sampled same) at read ∙ sampled_lem same i lt

abbrev same_at : List Digest → List Digest → ℕ → Bool
same_at c t i = same_digest (get_or c i zero_digest) (get_or t i zero_digest)

-- The byte built from two arrays of hashes reads back, at each chunk's index, whether the two
-- hashes there are the same; at any other index it reads as not verified.
pub is_chunk_verified-compare_hashes :
    (c_hashes t_hashes : List Digest) (i : ℕ)
    → is_chunk_verified (compare_hashes c_hashes t_hashes) (pos i) ≡ (
        ltb i num_chunks
        && same_digest (get_or c_hashes i zero_digest) (get_or t_hashes i zero_digest))
unfolding compare_hashes
is_chunk_verified-compare_hashes c_hashes t_hashes i = elim (dec_lt i num_chunks) [
  | yes lt ↦ rw (lt→ltb i num_chunks lt) (is_chunk_verified-built (same_at c_hashes t_hashes) i lt)
  | no ge ↦ rw (ltb-eq-false i num_chunks (omega arith)) (outside (omega arith))
]
  where
    outside : num_chunks ≤ i → is_chunk_verified (compare_hashes c_hashes t_hashes) (pos i) ≡ false
    outside le = unfold is_chunk_verified in (ground arith)

all_of : (ℕ → Bool) → Bool
all_of same =
    same 0 && (same 1 && (same 2 && (same 3 && (same 4 && (same 5 && (same 6 && same 7))))))

full_table : all_eight (λ same. eqb (built same == verified_file) (all_of same)) ≡ true
unfolding all_bool match_loop all_of
full_table = refl

built-full : (same : ℕ → Bool) → ((i : ℕ) → i < 8 → same i ≡ true) → built same ≡ verified_file
unfolding all_of match_loop
built-full same all =
    let row = all_eight_sound (λ s. eqb (built s == verified_file) (all_of s)) same full_table in
    let whole : all_of same ≡ true = rw (
      all 0 (omega arith),
      all 1 (omega arith),
      all 2 (omega arith),
      all 3 (omega arith),
      all 4 (omega arith),
      all 5 (omega arith),
      all 6 (omega arith),
      all 7 (omega arith),
    ) in
    (==_iff (built same) verified_file).0
      (eqb→eq (built same == verified_file) (all_of same) row ∙ whole)

full_bit_table : all_below 8 (λ i. is_chunk_verified verified_file (pos i)) ≡ true
unfolding all_below is_chunk_verified
full_bit_table = refl

pub full_bit : (i : ℕ) → i < 8 → is_chunk_verified verified_file (pos i) ≡ true
full_bit i lt = all_below_sound 8 (λ j. is_chunk_verified verified_file (pos j)) i full_bit_table lt

-- The byte is VERIFIED_FILE exactly when all eight pairs of hashes are the same.
pub compare_hashes-verified :
    (c_hashes t_hashes : List Digest)
    → (compare_hashes c_hashes t_hashes ≡ verified_file)
      ↔ ((i : ℕ) → i < 8 → get_or c_hashes i zero_digest ≡ get_or t_hashes i zero_digest)
unfolding compare_hashes
compare_hashes-verified c_hashes t_hashes = (
  λ full i lt. same_digest→eq _ _ (
      sym (is_chunk_verified-built (same_at c_hashes t_hashes) i lt)
      ∙ ap (λ (v : ℕ). is_chunk_verified v (pos i)) full
      ∙ full_bit i lt),
  λ same.
      built-full (same_at c_hashes t_hashes)
        (λ i lt. rw (same i lt) (same_digest_refl (get_or t_hashes i zero_digest))),
)

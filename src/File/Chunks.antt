-- ===== src/File/Chunks.antt =====
-- The eight chunks of a file, as the code lays them out: seven of an eighth, rounded down, and the
-- last with what remains.
use grintorrent.Base.{
  ℕ, zero, suc, ◌+◌, ◌-◌, ◌*◌, ◌/◌, ◌<◌, ◌≡◌, refl, sym, ap, ◌∙◌, List, [], ◌∷◌, ◌++◌, arith, ◌==◌,
  if◌then◌else◌, length, get_or, set, slice, slice-add, take-length, take-add,
}
use grintorrent.Tfile.{Digest, num_chunks, zero_digest}

abbrev pub chunk_len : ℕ → ℕ → ℕ
chunk_len n i = if i == 7 then n - 7 * (n / 8) else n / 8

-- The bytes of chunk `i` of a file of `n` bytes.
abbrev pub chunk : List ℕ → ℕ → ℕ → List ℕ
chunk content n i = slice (i * (n / 8)) (chunk_len n i) content

-- `k` chunks of the same length `c`, from number `i` on.
pub joined : List ℕ → ℕ → ℕ → ℕ → List ℕ
joined content c i zero = []
joined content c i (suc k) = slice (i * c) c content ++ joined content c (i + 1) k

joined-slice : (content : List ℕ) (c i k : ℕ) → joined content c i k ≡ slice (i * c) (k * c) content
unfolding joined
joined-slice content c i zero =
    let none_left : ◌≡◌ {A = ℕ} 0 (0 * c) = omega arith in
    ap (λ (k : ℕ). slice (i * c) k content) none_left
joined-slice content c i (suc k) =
    let step : (i + 1) * c ≡ i * c + c = grind arith in
    let total : c + k * c ≡ suc k * c = grind arith in
    ap (◌++◌ (slice (i * c) c content))
      (joined-slice content c (i + 1) k ∙ ap (λ (p : ℕ). slice p (k * c) content) step)
    ∙ sym (slice-add (i * c) c (k * c) content)
    ∙ ap (λ (n : ℕ). slice (i * c) n content) total

-- The chunks one after the other are the file.
pub chunks-append :
    (content : List ℕ)
    → joined content (length content / 8) 0 7 ++ chunk content (length content) 7 ≡ content
chunks-append content =
    let n = length content in
    let c = n / 8 in
    let first : 0 * c ≡ 0 = omega arith in
    ap (λ (s : List ℕ). s ++ slice (7 * c) (n - 7 * c) content)
      (joined-slice content c 0 7 ∙ ap (λ (p : ℕ). slice p (7 * c) content) first)
    ∙ sym (take-add (7 * c) (n - 7 * c) content)
    ∙ take-length (7 * c + (n - 7 * c)) content (omega arith)

-- Writes the digests of the chunks from number `i` on, `k` of them.
abbrev pub fill : (ℕ → Digest) → ℕ → ℕ → List Digest → List Digest
fill digest zero i hashes = hashes
fill digest (suc k) i hashes = fill digest k (i + 1) (set hashes i (digest i))

-- What both loops over the chunks leave in an array.
abbrev pub filled : (ℕ → Digest) → List Digest → List Digest
filled digest hashes = fill digest 7 0 (set hashes 7 (digest 7))

get_or-eight :
    (digest : ℕ → Digest) (i : ℕ)
    → i < 8
    → get_or
        (digest 0 ∷ digest 1 ∷ digest 2 ∷ digest 3 ∷ digest 4 ∷ digest 5 ∷ digest 6 ∷ digest 7 ∷ [])
        i
        zero_digest
      ≡ digest i
get_or-eight digest zero h = refl
get_or-eight digest (suc zero) h = refl
get_or-eight digest (suc (suc zero)) h = refl
get_or-eight digest (suc (suc (suc zero))) h = refl
get_or-eight digest (suc (suc (suc (suc zero)))) h = refl
get_or-eight digest (suc (suc (suc (suc (suc zero))))) h = refl
get_or-eight digest (suc (suc (suc (suc (suc (suc zero)))))) h = refl
get_or-eight digest (suc (suc (suc (suc (suc (suc (suc zero))))))) h = refl
get_or-eight digest (suc (suc (suc (suc (suc (suc (suc (suc i)))))))) h = absurd (omega arith)

pub get_or-filled :
    (digest : ℕ → Digest) (hashes : List Digest) (i : ℕ)
    → length hashes ≡ num_chunks
    → i < 8
    → get_or (filled digest hashes) i zero_digest ≡ digest i
get_or-filled digest (a ∷ b ∷ c ∷ d ∷ e ∷ f ∷ g ∷ h ∷ []) i eq lt = get_or-eight digest i lt
get_or-filled digest hashes i eq lt = absurd (omega arith)

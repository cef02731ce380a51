-- ===== src/Htable/Resize.antt =====
-- What `resize_htable` does: with an entry whose digest begins with two zero bytes, as an empty
-- entry's does, it never returns; without one, it empties the table.
use grintorrent.Base.{
  ℕ, zero, suc, ◌+◌, ◌*◌, ◌%◌, ◌^◌, ◌≤◌, ◌<◌, ◌≡◌, ◌≢◌, refl, ◌∙◌, ap, Bool, true, none, arith,
  length, get_or, get_elem?-eq-get_or, replicate, ok, out_of_fuel, ◌>>=◌, lt→ltb, ltb-eq-false,
  ==-eq-false, ℕ_discrete, get_or-replicate, length-replicate,
}
use grintorrent.Base.Int.{pos}
use grintorrent.Tfile.{Digest, TfileDef, Tfile, blank}
use grintorrent.Htable.{
  Htable, Add, prefix16, re_add, resize_loop, resize_with, resize_htable, add_htable, new_capacity,
  search_htable, home,
}
use grintorrent.Htable.Probe.{key, home-lt, probe-vacant}

module _ (add : Add) (ht : Htable) (width : length ht.table ≡ ht.capacity) where
  loop-next :
      (k i : ℕ)
      → i < ht.capacity
      → prefix16 (key ht i) ≢ 0
      → resize_loop add (suc k) i ht ≡ resize_loop add k (i + 1) ht
  unfolding resize_loop
  loop-next k i lt ne = rw (
    lt→ltb i ht.capacity lt,
    get_elem?-eq-get_or ht.table i blank (omega arith),
    ==-eq-false _ 0 ne,
  )

  loop-re_add :
      (k i : ℕ)
      → i < ht.capacity
      → prefix16 (key ht i) ≡ 0
      → resize_loop add (suc k) i ht
        ≡ (re_add add ht i (get_or ht.table i blank) >>= resize_loop add k (i + 1))
  unfolding resize_loop
  loop-re_add k i lt z =
      rw (lt→ltb i ht.capacity lt, get_elem?-eq-get_or ht.table i blank (omega arith), z)

  -- While `add` does not return, the loop does not get past an entry with two zero bytes.
  loop-out_of_fuel :
      (i k s : ℕ)
      → i < ht.capacity
      → prefix16 (key ht i) ≡ 0
      → ((t : TfileDef) → add ht t ≡ out_of_fuel)
      → s ≤ i
      → resize_loop add k s ht ≡ out_of_fuel
  unfolding resize_loop re_add
  loop-out_of_fuel i zero s lt z stuck le = refl
  loop-out_of_fuel i (suc k) s lt z stuck le = elim (ℕ_discrete (prefix16 (key ht s)) 0) [
    | yes here ↦ loop-re_add k s (omega arith) here ∙ rw (stuck (get_or ht.table s blank).tdef)
    | no ne ↦ loop-next k s (omega arith) ne ∙ loop-out_of_fuel i k (s + 1) lt z stuck (later ne)
  ]
    where
      later : prefix16 (key ht s) ≢ 0 → s + 1 ≤ i
      later ne = elim (ℕ_discrete s i) [ yes e ↦ absurd (ne (rw e z)) | no ne' ↦ omega arith ]

  -- Without such an entry the loop changes nothing.
  loop_skips :
      (n k s : ℕ)
      → n + s ≡ ht.capacity
      → n < k
      → ((i : ℕ) → i < ht.capacity → prefix16 (key ht i) ≢ 0)
      → resize_loop add k s ht ≡ ok ht
  unfolding resize_loop
  loop_skips n zero s e lt ne = absurd (omega arith)
  loop_skips zero (suc k) s e lt ne = rw (ltb-eq-false s ht.capacity (omega arith))
  loop_skips (suc n) (suc k) s e lt ne =
      loop-next k s (omega arith) (ne s (omega arith))
      ∙ loop_skips n k (s + 1) (omega arith) (omega arith) ne

new_capacity_lem : (c : ℕ) → c < 2 ^ 30 → new_capacity c ≡ c * 2
unfolding new_capacity
new_capacity_lem c h = ground arith

search_blank :
    (n size : ℕ)
    → 0 < n
    → n < 2 ^ 63
    → (h : Digest)
    → search_htable (record { capacity = n; size = size; table = replicate n blank }) h ≡ ok none
unfolding search_htable
search_blank n size lo hi h = rw (
    probe-vacant blanks h (suc (length blanks.table)) (home blanks h)
      (omega (arith, home-lt blanks h lo hi, length-replicate n blank))
      (ap (λ (e : Tfile). e.tdef.f_hash) (get_or-replicate n (home blanks h) blank)))
  where
    blanks : Htable
    blanks = record { capacity = n; size = size; table = replicate n blank }

module _ (calloc : ℕ → Bool) (ht : Htable) (width : length ht.table ≡ ht.capacity) where
  module _ (memory : calloc (new_capacity ht.capacity) ≡ true) (i : ℕ) (lt : i < ht.capacity)
      (z : prefix16 (key ht i) ≡ 0) where
    resize_with-out_of_fuel :
        (add : Add) (k : ℕ)
        → ((t : TfileDef) → add ht t ≡ out_of_fuel)
        → resize_with calloc add k ht ≡ out_of_fuel
    unfolding resize_with
    resize_with-out_of_fuel add k stuck =
        rw (memory, loop-out_of_fuel add ht width i k 0 lt z stuck (omega arith))

    add_htable-out_of_fuel :
        ht.capacity < ht.size * 2
        → ht.size < 2 ^ 63
        → (f : ℕ) (t : TfileDef) → add_htable calloc f ht t ≡ out_of_fuel
    unfolding add_htable
    add_htable-out_of_fuel over small zero t = refl
    add_htable-out_of_fuel over small (suc f) t =
        let test : ht.capacity < (ht.size * 2) % 2 ^ 64 = omega arith in
        rw (
          lt→ltb ht.capacity ((ht.size * 2) % 2 ^ 64) test,
          resize_with-out_of_fuel (add_htable calloc f) f (add_htable-out_of_fuel over small f),
        )

-- When a table over half full, with fewer than 2^63 entries in use, has an entry whose digest
-- begins with two zero bytes, as every empty entry's does, and calloc has memory for the new table,
-- neither add_htable nor resize_htable returns, however deep their calls of one another may go.
pub resize_htable_diverges :
    (calloc : ℕ → Bool) (ht : Htable)
    → length ht.table ≡ ht.capacity
    → calloc (new_capacity ht.capacity) ≡ true
    → (i : ℕ) → i < ht.capacity
    → prefix16 (key ht i) ≡ 0
    → ht.capacity < ht.size * 2
    → ht.size < 2 ^ 63
    → (f : ℕ) (t : TfileDef)
    → (add_htable calloc f ht t ≡ out_of_fuel) × (resize_htable calloc f ht ≡ out_of_fuel)
unfolding resize_htable
resize_htable_diverges calloc ht width memory i lt z over small f t = (
  add_htable-out_of_fuel calloc ht width memory i lt z over small f t,
  resize_with-out_of_fuel calloc ht width memory i lt z (add_htable calloc f) f
      (add_htable-out_of_fuel calloc ht width memory i lt z over small f),
)

-- When no entry's digest begins with two zero bytes, the capacity is positive and below 2^30, and
-- calloc has memory for the new table, resize_htable with more rounds than the capacity returns 1
-- with an empty table of twice the capacity and the old count, and no search finds anything.
pub resize_htable_forgets :
    (calloc : ℕ → Bool) (ht : Htable)
    → length ht.table ≡ ht.capacity
    → 0 < ht.capacity
    → ht.capacity < 2 ^ 30
    → calloc (ht.capacity * 2) ≡ true
    → ((i : ℕ) → i < ht.capacity → prefix16 (key ht i) ≢ 0)
    → (f : ℕ) → ht.capacity < f
    → (ht' : Htable) × (resize_htable calloc f ht ≡ ok (pos 1, ht'))
      × (ht'.size ≡ ht.size)
      × (ht'.capacity ≡ ht.capacity * 2)
      × ((h : Digest) → search_htable ht' h ≡ ok none)
unfolding resize_htable resize_with
resize_htable_forgets calloc ht width lo hi memory ne f fuel =
    let size = new_capacity_lem ht.capacity hi in
    (
      record ht { capacity = ht.capacity * 2; table = replicate (ht.capacity * 2) blank },
      rw (
        size,
        memory,
        loop_skips (add_htable calloc f) ht width ht.capacity f 0 (omega arith) fuel ne,
      ),
      refl,
      refl,
      search_blank (ht.capacity * 2) ht.size (omega arith) (omega arith),
    )
